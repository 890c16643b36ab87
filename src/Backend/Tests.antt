-- ===== src/Backend/Tests.antt =====
-- A stream of two telegrams that arrives in three pieces.
use lib_smoke.Base.{ℕ, ◌≡◌, ◌++◌, refl, arith, List, [], ◌∷◌, replicate}
use lib_smoke.Ring
use lib_smoke.Ring.Bounds
use lib_smoke.Ring.Refine.{contents}
use lib_smoke.Telegram.{Telegram}
use lib_smoke.Backend.Framing.Split.{split_all}
use lib_smoke.Backend.Framing.Stream.{IsReady, flatten, receive_all, process_all, process_all-split}

abbrev blank : Telegram
blank = record {
  hdr_ctrl = 0;
  hdr_src = 0;
  hdr_dest = 0;
  hdr_size = 0;
  hdr_routing = 0;
  hdr_group = 0;
  body = replicate 16 0;
}

abbrev empty : Ring.RingBuffer
empty = Ring.create 256

empty-IsReady : IsReady empty
unfolding Ring.create
empty-IsReady = record {
  valid = Bounds.create-IsValid 256 (omega arith) (omega arith);
  bufsize = refl;
  incomplete = ground arith;
}

abbrev pieces : List (List ℕ)
pieces =
    (0xbc ∷ 1 ∷ 0 ∷ 2 ∷ [])
    ∷ (0 ∷ 0 ∷ 0x43 ∷ 0xbc ∷ 1 ∷ [])
    ∷ (0 ∷ 2 ∷ 0 ∷ 1 ∷ 9 ∷ 0x4b ∷ 0xbc ∷ [])
    ∷ []

process_all-split_example :
    let s = process_all blank (empty, []) pieces in
    let parts = split_all (contents empty ++ flatten pieces) in
    IsReady s.0 × (contents s.0 ≡ parts.0) × (s.1 ≡ [] ++ receive_all blank parts.1)
process_all-split_example =
    process_all-split blank empty [] pieces empty-IsReady
      (omega arith, (omega arith, (omega arith, tt)))
