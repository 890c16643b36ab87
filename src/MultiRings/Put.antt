-- ===== src/MultiRings/Put.antt =====
-- What a caller of `get` writes through the pointer, and the table of the constructor.
use lib_smoke.Base.{
  ℕ, zero, suc, ◌<◌, ◌^◌, ◌≡◌, ◌≢◌, sym, refl, arith, List, [], ◌∷◌, none, some, false, ◌==◌,
  if◌then◌else◌, length, get_or, set, replicate, length-set, length-replicate,
}
use lib_smoke.Ring.{RingBuffer}
use lib_smoke.Ring.Bounds
use lib_smoke.Ring.Refine.{contents}
use lib_smoke.MultiRings.{Slot, MultiRings, no_slot, slot, create_rings, put}
use lib_smoke.MultiRings.Slots.{find, count_free}
use lib_smoke.MultiRings.Collect.{Distinct, AllValid, IsValid}
use lib_smoke.MultiRings.Lookup.{pending, AllValid-set}

count_free-set_same :
    (i : ℕ) (s : Slot) (ss : List Slot)
    → (get_or ss i no_slot).free ≡ false
    → s.free ≡ false
    → count_free (set ss i s) ≡ count_free ss
unfolding count_free
count_free-set_same i s [] h u = refl
count_free-set_same zero s (x ∷ ss) h u = ground arith
count_free-set_same (suc i) s (x ∷ ss) h u = ground (arith, count_free-set_same i s ss)

used_once :
    (key i : ℕ) (ss : List Slot)
    → i < length ss
    → (get_or ss i no_slot).free ≡ false
    → find key ss ≡ none
    → (get_or ss i no_slot).id ≢ key
unfolding find
used_once key i [] h u n = absurd (omega arith)
used_once key zero (s ∷ ss) h u n = ground arith
used_once key (suc i) (s ∷ ss) h u n = used_once key i ss (omega arith) u (ground arith)

find-set_buf :
    (k i : ℕ) (r : RingBuffer) (ss : List Slot)
    → i < length ss
    → (get_or ss i no_slot).free ≡ false
    → Distinct ss
    → find k (set ss i (record (get_or ss i no_slot) { buf = r }))
      ≡ (if k == (get_or ss i no_slot).id then some r else find k ss)
unfolding find
find-set_buf k i r [] h u d = absurd (omega arith)
find-set_buf k zero r (s ∷ ss) h u d = ground arith
find-set_buf k (suc i) r (s ∷ ss) h u d = ground (arith, find-set_buf k i r ss, used_once s.id i ss)

Distinct-set_buf :
    (i : ℕ) (r : RingBuffer) (ss : List Slot)
    → i < length ss
    → (get_or ss i no_slot).free ≡ false
    → Distinct ss
    → Distinct (set ss i (record (get_or ss i no_slot) { buf = r }))
Distinct-set_buf i r [] h u d = tt
Distinct-set_buf zero r (s ∷ ss) h u d = d
Distinct-set_buf (suc i) r (s ∷ ss) h u d = (
  λ f. ground (arith, find-set_buf s.id i r ss, d.0 f, used_once s.id i ss),
  Distinct-set_buf i r ss (omega arith) u d.1,
)

-- In a valid table, what is stored in the ring of a used slot (a valid ring of 1024 bytes) keeps the
-- table valid and changes the pending bytes of that slot's sender alone.
pub put-pending :
    (m : MultiRings) (i : ℕ) (r : RingBuffer)
    → IsValid m
    → i < length m.buffers
    → (slot m i).free ≡ false
    → Bounds.IsValid r
    → r.bufsize ≡ 1024
    → IsValid (put m i r)
      × ((k : ℕ)
          → pending k (put m i r).buffers
            ≡ (if k == (slot m i).id then contents r else pending k m.buffers))
unfolding put
put-pending m i r v h u w b = (
  record {
    counted =
        omega
          (arith, count_free-set_same i (record (slot m i) { buf = r }) m.buffers u u, v.counted);
    table = omega (arith, length-set m.buffers i (record (slot m i) { buf = r }), v.table);
    small = v.small;
    distinct = Distinct-set_buf i r m.buffers h u v.distinct;
    rings =
        AllValid-set i (record (slot m i) { buf = r }) m.buffers v.rings
          (record { valid = λ _. w; kilobyte = λ _. b });
  },
  λ k. ground (arith, find-set_buf k i r m.buffers h u v.distinct),
)

all_free :
    (n : ℕ)
    → (count_free (replicate n no_slot) ≡ n)
      × Distinct (replicate n no_slot)
      × AllValid (replicate n no_slot)
unfolding count_free
all_free zero = (refl, tt, tt)
all_free (suc n) =
    let h = all_free n in
    (omega (arith, h.0), (λ f. cc, h.1), (record { valid = λ f. cc; kilobyte = λ f. cc }, h.2))

pub create_rings-IsValid : (n : ℕ) → n < 2 ^ 63 → IsValid (create_rings n)
unfolding create_rings
create_rings-IsValid n h = record {
  counted = sym (all_free n).0;
  table = length-replicate n no_slot;
  small = h;
  distinct = (all_free n).1;
  rings = (all_free n).2;
}
