-- ===== src/Ring/Tests.antt =====
-- Rings of eight bytes that go round the end of the array.
use lib_smoke.Base.{◌≡◌, refl, [], ◌∷◌, some, arith}
use lib_smoke.Ring.{RingBuffer, write, peek, remove, read}
use lib_smoke.Ring.Queue
use lib_smoke.Ring.Bounds.{IsValid}
use lib_smoke.Ring.Refine.{contents, write_refines, read_refines}

-- 7, 8, then 9 at the start of the array
abbrev wrapped : RingBuffer
wrapped = record { buf = 9 ∷ 0 ∷ 0 ∷ 0 ∷ 0 ∷ 0 ∷ 7 ∷ 8 ∷ []; bufsize = 8; pstart = 6; plen = 3 }

wrapped-IsValid : IsValid wrapped
wrapped-IsValid = omega arith

contents-wrapped : contents wrapped ≡ 7 ∷ 8 ∷ 9 ∷ []
contents-wrapped = refl

read_round_the_end : (read wrapped 3).0 ≡ some (7 ∷ 8 ∷ 9 ∷ [])
unfolding read peek remove
read_round_the_end = refl

write_refines_example :
    (let (done, r) = write wrapped (1 ∷ 2 ∷ []) in (done, contents r))
    ≡ Queue.write 8 (7 ∷ 8 ∷ 9 ∷ []) (1 ∷ 2 ∷ [])
write_refines_example = write_refines (1 ∷ 2 ∷ []) (omega arith) wrapped-IsValid

read_refines_example :
    (let (out, r) = read wrapped 3 in (out, contents r)) ≡ Queue.read (7 ∷ 8 ∷ 9 ∷ []) 3
read_refines_example = read_refines 3 wrapped-IsValid
