-- ===== src/MultiRings/Tests.antt =====
-- A table of two rings: one used and empty, one used with a byte.
use lib_smoke.Base.{◌≡◌, refl, arith, [], ◌∷◌, false}
use lib_smoke.Ring
use lib_smoke.Ring.{RingBuffer}
use lib_smoke.Ring.Bounds
use lib_smoke.MultiRings.{MultiRings, garbage_collect, get}
use lib_smoke.MultiRings.Slots.{find, count_free}
use lib_smoke.MultiRings.Collect.{IsValid, reclaimed, garbage_collect-reclaimed}
use lib_smoke.MultiRings.Lookup.{Serves, get-Serves}

abbrev with_byte : RingBuffer
with_byte = (Ring.write (Ring.create 1024) (5 ∷ [])).1

-- both slots taken: 7 has a byte pending, 8 has none
two_used : MultiRings
unfolding Ring.write Ring.create
two_used = record {
  num_free = 0;
  max_rings = 2;
  buffers =
      record { free = false; id = 7; buf = with_byte }
      ∷ record { free = false; id = 8; buf = Ring.create 1024 }
      ∷ [];
}

two_used-IsValid : IsValid two_used
unfolding two_used find count_free
two_used-IsValid =
    let e = Bounds.create-IsValid 1024 (omega arith) (omega arith) in
    let w = Bounds.write-IsValid (5 ∷ []) (omega arith) e in
    record {
      counted = refl;
      table = refl;
      small = omega arith;
      distinct = (λ _. refl, (λ _. refl, tt));
      rings = (
        record { valid = λ _. w; kilobyte = λ _. refl },
        (record { valid = λ _. e; kilobyte = λ _. refl }, tt),
      );
    }

get-Serves_example : Serves 9 two_used (get two_used 9)
get-Serves_example = get-Serves 9 two_used two_used-IsValid

garbage_collect-reclaimed_example : garbage_collect two_used ≡ record two_used {
  buffers = reclaimed two_used.buffers;
  num_free = count_free (reclaimed two_used.buffers);
}
garbage_collect-reclaimed_example = garbage_collect-reclaimed two_used two_used-IsValid
