-- ===== src/MultiRings/Slots.antt =====
-- The table of slots as a finite map: where the search of `get` stops.
use lib_smoke.Base.{
  ◌↔◌, ap, Option-cases, ℕ, zero, suc, ◌+◌, ◌≤◌, ◌<◌, ◌≡◌, refl, arith, List, [], ◌∷◌, Option, none,
  some, true, false, not, ◌&&◌, ◌==◌, if◌then◌else◌, length, get_or, set,
}
use mathlib.Core.Option
use lib_smoke.Ring.{RingBuffer}
use lib_smoke.MultiRings.{Slot, is_none, no_slot, scan}

-- the ring of `key`, if a slot is used for it
unfoldable pub find : ℕ → List Slot → Option RingBuffer
find key [] = none
find key (s ∷ ss) = if not s.free && (s.id == key) then some s.buf else find key ss

unfoldable pub index_of : ℕ → List Slot → Option ℕ
index_of key [] = none
index_of key (s ∷ ss) =
    if not s.free && (s.id == key) then some 0 else Option.map suc (index_of key ss)

unfoldable pub first_free : List Slot → Option ℕ
first_free [] = none
first_free (s ∷ ss) = if s.free then some 0 else Option.map suc (first_free ss)

unfoldable pub count_free : List Slot → ℕ
count_free [] = 0
count_free (s ∷ ss) = if s.free then suc (count_free ss) else count_free ss

unfoldable pub shift : ℕ → Option ℕ → Option ℕ
shift i none = none
shift i (some k) = some (i + k)

-- The search of `get` in one pass: the slot of `key`, and if there is none the first free slot.
pub scan-index_of :
    (key i : ℕ) (found : Option ℕ) (ss : List Slot)
    → (scan key i found ss).1 ≡ shift i (index_of key ss)
unfolding scan index_of shift
scan-index_of key i found [] = refl
scan-index_of key i found (s ∷ ss) =
    ground (arith, scan-index_of key (suc i) (if s.free && is_none found then some i else found) ss)

pub scan-first_free :
    (key i : ℕ) (found : Option ℕ) (ss : List Slot)
    → index_of key ss ≡ none
    → (scan key i found ss).0 ≡ (if is_none found then shift i (first_free ss) else found)
unfolding scan index_of shift first_free
scan-first_free key i none [] h = refl
scan-first_free key i (some k) [] h = refl
scan-first_free key i found (s ∷ ss) h =
    ground
      (arith, scan-first_free key (suc i) (if s.free && is_none found then some i else found) ss)

-- The slot that `index_of` names is used, is that of `key`, and holds the ring that `find` finds.
pub index_of-some :
    (key k : ℕ) (ss : List Slot)
    → index_of key ss ≡ some k
    → (k < length ss)
      × ((get_or ss k no_slot).free ≡ false)
      × ((get_or ss k no_slot).id ≡ key)
      × (find key ss ≡ some (get_or ss k no_slot).buf)
unfolding index_of find
index_of-some key k [] h = cc
index_of-some key zero (s ∷ ss) h = ground (arith, Option-cases (index_of key ss))
index_of-some key (suc k) (s ∷ ss) h =
    ground (arith, Option-cases (index_of key ss), index_of-some key k ss)

pub index_of-none : (key : ℕ) (ss : List Slot) → (index_of key ss ≡ none) ↔ (find key ss ≡ none)
unfolding index_of find
index_of-none key [] = ground arith
index_of-none key (s ∷ ss) = ground (arith, index_of-none key ss, Option-cases (index_of key ss))

pub first_free-some :
    (k : ℕ) (ss : List Slot)
    → first_free ss ≡ some k
    → (k < length ss) × ((get_or ss k no_slot).free ≡ true)
unfolding first_free
first_free-some k [] h = cc
first_free-some zero (s ∷ ss) h = ground (arith, Option-cases (first_free ss))
first_free-some (suc k) (s ∷ ss) h =
    ground (arith, Option-cases (first_free ss), first_free-some k ss)

pub first_free-none : (ss : List Slot) → (first_free ss ≡ none) ↔ (count_free ss ≡ 0)
unfolding first_free count_free
first_free-none [] = ground arith
first_free-none (s ∷ ss) = ground (arith, first_free-none ss, Option-cases (first_free ss))

pub count_free-le : (ss : List Slot) → count_free ss ≤ length ss
unfolding count_free
count_free-le [] = omega arith
count_free-le (s ∷ ss) = ground (arith, count_free-le ss)

-- A free slot is taken.
pub find-set_free :
    (key other j : ℕ) (r : RingBuffer) (ss : List Slot)
    → j < length ss
    → (get_or ss j no_slot).free ≡ true
    → find key ss ≡ none
    → find other (set ss j (record { free = false; id = key; buf = r }))
      ≡ (if other == key then some r else find other ss)
unfolding find
find-set_free key other j r [] h f n = absurd (omega arith)
find-set_free key other zero r (s ∷ ss) h f n = ground (arith, find_again key other ss)
  where
    find_again : (key other : ℕ) (ss : List Slot) → other ≡ key → find other ss ≡ find key ss
    find_again key other ss e = ap (λ k. find k ss) e
find-set_free key other (suc j) r (s ∷ ss) h f n = ground (arith, find-set_free key other j r ss)

pub count_free-set_used :
    (j : ℕ) (s : Slot) (ss : List Slot)
    → j < length ss
    → (get_or ss j no_slot).free ≡ true
    → s.free ≡ false
    → count_free (set ss j s) + 1 ≡ count_free ss
unfolding count_free
count_free-set_used j s [] h f u = absurd (omega arith)
count_free-set_used zero s (x ∷ ss) h f u = ground arith
count_free-set_used (suc j) s (x ∷ ss) h f u = ground (arith, count_free-set_used j s ss)
