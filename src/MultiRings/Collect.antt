-- ===== src/MultiRings/Collect.antt =====
-- `garbage_collect`: exactly the used slots with an empty ring become free.
use lib_smoke.Base.{
  ℕ, suc, ◌+◌, ◌≤◌, ◌<◌, ◌^◌, ◌≡◌, ap, refl, arith, List, [], ◌∷◌, ◌++◌, none, true, false, not,
  ◌&&◌, ◌==◌, if◌then◌else◌, length, get_or, set, length-append, append_assoc,
}
use lib_smoke.Ring.{size}
use lib_smoke.Ring.Bounds
use lib_smoke.MultiRings.{
  Slot, MultiRings, no_slot, slot, deallocate, collect_from, garbage_collect,
}
use lib_smoke.MultiRings.Slots.{find, count_free, count_free-le}

-- what `deallocate` makes of one slot
unfoldable pub reclaim : Slot → Slot
reclaim s = if not s.free && (size s.buf == 0) then record s { free = true; id = 0 } else s

abbrev pub reclaimed : List Slot → List Slot
reclaimed [] = []
reclaimed (s ∷ ss) = reclaim s ∷ reclaimed ss

-- Each sender has one slot at most.
abbrev pub Distinct : List Slot → Type 0
Distinct [] = Unit {0}
Distinct (s ∷ ss) = (s.free ≡ false → find s.id ss ≡ none) × Distinct ss

-- A used slot holds a valid ring of 1024 bytes.
pub record SlotValid (s : Slot) : Type 0 where
  pub valid : s.free ≡ false → Bounds.IsValid s.buf
  pub kilobyte : s.free ≡ false → s.buf.bufsize ≡ 1024

abbrev pub AllValid : List Slot → Type 0
AllValid [] = Unit {0}
AllValid (s ∷ ss) = SlotValid s × AllValid ss

pub record IsValid (m : MultiRings) : Type 0 where
  pub counted : m.num_free ≡ count_free m.buffers
  pub table : length m.buffers ≡ m.max_rings
  pub small : m.max_rings < 2 ^ 63
  pub distinct : Distinct m.buffers
  pub rings : AllValid m.buffers

pub length-reclaimed : (ss : List Slot) → length (reclaimed ss) ≡ length ss
length-reclaimed [] = refl
length-reclaimed (s ∷ ss) = ap suc (length-reclaimed ss)

count_free-reclaimed-le : (ss : List Slot) → count_free ss ≤ count_free (reclaimed ss)
unfolding count_free reclaim
count_free-reclaimed-le [] = omega arith
count_free-reclaimed-le (s ∷ ss) = ground (arith, count_free-reclaimed-le ss)

get_or-middle_slot :
    (xs ys : List Slot) (s : Slot) → get_or (xs ++ (s ∷ ys)) (length xs) no_slot ≡ s
get_or-middle_slot [] ys s = refl
get_or-middle_slot (x ∷ xs) ys s = get_or-middle_slot xs ys s

set-middle : (xs ys : List Slot) (s t : Slot) → set (xs ++ (s ∷ ys)) (length xs) t ≡ xs ++ (t ∷ ys)
set-middle [] ys s t = refl
set-middle (x ∷ xs) ys s t = ap (λ l. x ∷ l) (set-middle xs ys s t)

count_free-append : (xs ys : List Slot) → count_free (xs ++ ys) ≡ count_free xs + count_free ys
unfolding count_free
count_free-append [] ys = omega arith
count_free-append (x ∷ xs) ys = ground (arith, count_free-append xs ys)

-- One round of the loop, at the slot behind `pre`.
module _ (n : ℕ) (pre : List Slot) (s : Slot) (ss : List Slot) (small : n < 2 ^ 63)
    (len : length (pre ++ (s ∷ ss)) ≡ n) where
  abbrev at : MultiRings
  at = record { num_free = count_free (pre ++ (s ∷ ss)); max_rings = n; buffers = pre ++ (s ∷ ss) }

  abbrev after : MultiRings
  after = record {
    num_free = count_free (pre ++ (reclaim s ∷ ss));
    max_rings = n;
    buffers = pre ++ (reclaim s ∷ ss);
  }

  collect_round :
      (if not (slot at (length pre)).free then deallocate at (length pre) else at) ≡ after
  unfolding deallocate reclaim count_free
  collect_round = ground (
    arith,
    get_or-middle_slot pre ss s,
    set-middle pre ss s (record s { free = true; id = 0 }),
    count_free-append pre (s ∷ ss),
    count_free-append pre (record s { free = true; id = 0 } ∷ ss),
    count_free-le (pre ++ (s ∷ ss)),
    count_free-le pre,
    count_free-le ss,
    length-append pre (s ∷ ss),
  )

collect_from-reclaimed :
    (n : ℕ) (pre ss : List Slot)
    → n < 2 ^ 63
    → length (pre ++ ss) ≡ n
    → collect_from
        (length ss)
        (length pre)
        (record { num_free = count_free (pre ++ ss); max_rings = n; buffers = pre ++ ss })
      ≡ record {
        num_free = count_free (pre ++ reclaimed ss);
        max_rings = n;
        buffers = pre ++ reclaimed ss;
      }
unfolding collect_from
collect_from-reclaimed n pre [] h e = refl
collect_from-reclaimed n pre (s ∷ ss) h e =
    let x : List Slot = reclaim s ∷ [] in
    rw (collect_round n pre s ss h e, collect_from)
      (ground (
        arith,
        collect_from-reclaimed n (pre ++ x) ss h (
            omega (
              arith,
              length-append (pre ++ x) ss,
              length-append pre x,
              length-append pre (s ∷ ss),
            )),
        append_assoc pre x ss,
        append_assoc pre x (reclaimed ss),
        length-append pre x,
      ))

reclaimed-all_free : (ss : List Slot) → count_free ss ≡ length ss → reclaimed ss ≡ ss
unfolding count_free reclaim
reclaimed-all_free [] h = refl
reclaimed-all_free (s ∷ ss) h = ground (arith, reclaimed-all_free ss, count_free-le ss)

-- On a valid table `garbage_collect` frees every used slot whose ring is empty, leaves all other
-- slots, and the free counter is the number of free slots afterwards.
pub garbage_collect-reclaimed :
    (m : MultiRings)
    → IsValid m
    → garbage_collect m
      ≡ record m { buffers = reclaimed m.buffers; num_free = count_free (reclaimed m.buffers) }
unfolding garbage_collect
garbage_collect-reclaimed m v = ground (
  arith,
  v,
  reclaimed-all_free m.buffers,
  collect_from-reclaimed m.max_rings [] m.buffers v.small v.table,
)
