-- ===== src/MultiRings/Lookup.antt =====
-- `get` against what a client sees: the bytes that are pending from each sender.
use lib_smoke.Base.{
  ℕ, zero, suc, ◌+◌, ◌<◌, ◌≡◌, ◌≢◌, ap, sym, ◌∙◌, Option-cases, refl, arith, List, [], ◌∷◌, Option,
  none, some, true, false, ◌==◌, if◌then◌else◌, length, get_or, set, length-set, inl, inr,
}
use lib_smoke.Ring.{RingBuffer, create, size}
use lib_smoke.Ring.Bounds
use lib_smoke.Ring.Refine.{contents}
use lib_smoke.Ring.Client.{contents-create}
use lib_smoke.MultiRings.{
  Slot, MultiRings, no_slot, slot, allocate, garbage_collect, Got, ring, null, unfinished, get_rec,
  get,
}
use lib_smoke.MultiRings.Slots.{
  find, index_of, first_free, count_free, shift, scan-index_of, scan-first_free, index_of-some,
  index_of-none, first_free-some, first_free-none, count_free-le, find-set_free,
  count_free-set_used,
}
use lib_smoke.MultiRings.Collect.{
  reclaim, reclaimed, length-reclaimed, Distinct, SlotValid, AllValid, IsValid,
  garbage_collect-reclaimed,
}

-- the bytes of `key` that wait for the rest of their packet
abbrev bytes_of : Option RingBuffer → List ℕ
bytes_of none = []
bytes_of (some r) = contents r

abbrev pub pending : ℕ → List Slot → List ℕ
pending key ss = bytes_of (find key ss)

contents-empty : (r : RingBuffer) → size r ≡ 0 → contents r ≡ []
unfolding size
contents-empty r h = rw h

find-reclaimed-none :
    (key : ℕ) (ss : List Slot) → find key ss ≡ none → find key (reclaimed ss) ≡ none
unfolding find reclaim
find-reclaimed-none key [] h = refl
find-reclaimed-none key (s ∷ ss) h = ground (arith, find-reclaimed-none key ss)

pending-reclaimed :
    (key : ℕ) (ss : List Slot) → Distinct ss → pending key (reclaimed ss) ≡ pending key ss
unfolding find reclaim
pending-reclaimed key [] d = refl
pending-reclaimed key (s ∷ ss) d = ground (
  arith,
  pending-reclaimed key ss,
  find-reclaimed-none s.id ss,
  contents-empty s.buf,
  find_again key s.id ss,
  find_again key s.id (reclaimed ss),
)
  where
    find_again : (key other : ℕ) (ss : List Slot) → other ≡ key → find other ss ≡ find key ss
    find_again key other ss e = ap (λ k. find k ss) e

Distinct-reclaimed : (ss : List Slot) → Distinct ss → Distinct (reclaimed ss)
unfolding reclaim
Distinct-reclaimed [] d = tt
Distinct-reclaimed (s ∷ ss) d =
    ground (arith, Distinct-reclaimed ss d.1, find-reclaimed-none s.id ss)

AllValid-reclaimed : (ss : List Slot) → AllValid ss → AllValid (reclaimed ss)
unfolding reclaim
AllValid-reclaimed [] v = tt
AllValid-reclaimed (s ∷ ss) v = ground (arith, AllValid-reclaimed ss v.1, v.0)

Distinct-set_free :
    (key j : ℕ) (r : RingBuffer) (ss : List Slot)
    → j < length ss
    → (get_or ss j no_slot).free ≡ true
    → find key ss ≡ none
    → Distinct ss
    → Distinct (set ss j (record { free = false; id = key; buf = r }))
unfolding find
Distinct-set_free key j r [] h f n d = tt
Distinct-set_free key zero r (s ∷ ss) h f n d = ground arith
Distinct-set_free key (suc j) r (s ∷ ss) h f n d =
    ground (arith, Distinct-set_free key j r ss, find-set_free key s.id j r ss)

pub AllValid-set :
    (j : ℕ) (s : Slot) (ss : List Slot) → AllValid ss → SlotValid s → AllValid (set ss j s)
AllValid-set j s [] v w = tt
AllValid-set zero s (x ∷ ss) v w = (w, v.1)
AllValid-set (suc j) s (x ∷ ss) v w = (v.0, AllValid-set j s ss v.1 w)

-- Every slot is used by another sender whose bytes are pending.
abbrev pub Busy : ℕ → List Slot → Type 0
Busy key [] = Unit {0}
Busy key (s ∷ ss) = ((s.free ≡ false) × (s.id ≢ key) × (size s.buf ≢ 0)) × Busy key ss

-- What `get` owes its caller: a used slot for the sender with the bytes that were pending from it,
-- or NULL with a table in which all slots are busy; nobody's pending bytes change.
abbrev pub Serves : ℕ → MultiRings → Got → Type 0
Serves key m (ring i m') =
    IsValid m'
    × (m'.max_rings ≡ m.max_rings)
    × (i < length m'.buffers)
    × ((slot m' i).free ≡ false)
    × ((slot m' i).id ≡ key)
    × (contents (slot m' i).buf ≡ pending key m.buffers)
    × ((k : ℕ) → pending k m'.buffers ≡ pending k m.buffers)
Serves key m (null m') = (m' ≡ m) × Busy key m.buffers
Serves key m unfinished = ⊥

get_or-set_slot :
    (ss : List Slot) (i : ℕ) (s : Slot) → i < length ss → get_or (set ss i s) i no_slot ≡ s
get_or-set_slot [] i s h = absurd (omega arith)
get_or-set_slot (x ∷ ss) zero s h = refl
get_or-set_slot (x ∷ ss) (suc i) s h = get_or-set_slot ss i s (omega arith)

new_ring : {key : ℕ} → SlotValid (record { free = false; id = key; buf = create 1024 })
new_ring = record {
  valid = λ _. Bounds.create-IsValid 1024 (omega arith) (omega arith);
  kilobyte = λ _. Bounds.bufsize-create 1024;
}

module _ (key : ℕ) (m : MultiRings) (v : IsValid m) where
  new_pending :
      (k i : ℕ)
      → i < length m.buffers
      → (get_or m.buffers i no_slot).free ≡ true
      → find key m.buffers ≡ none
      → pending k (set m.buffers i (record { free = false; id = key; buf = create 1024 }))
        ≡ pending k m.buffers
  new_pending k i h f n = ground (
    arith,
    find-set_free key k i (create 1024) m.buffers h f n,
    contents-create 1024,
    find_again key k m.buffers,
  )
    where
      find_again : (key other : ℕ) (ss : List Slot) → other ≡ key → find other ss ≡ find key ss
      find_again key other ss e = ap (λ k. find k ss) e

  old_slot : (i : ℕ) → index_of key m.buffers ≡ some i → Serves key m (ring i m)
  old_slot i e =
      let h = index_of-some key i m.buffers e in
      (v, refl, h.0, h.1, h.2, ground (arith, h), λ k. refl)

  new_slot :
      (i : ℕ)
      → index_of key m.buffers ≡ none
      → first_free m.buffers ≡ some i
      → Serves key m (ring i (allocate m i key))
  unfolding allocate
  new_slot i e f =
      let h = first_free-some i m.buffers f in
      let n : find key m.buffers ≡ none = (index_of-none key m.buffers).0 e in
      let s : Slot = record { free = false; id = key; buf = create 1024 } in
      let c = count_free-set_used i s m.buffers h.0 h.1 refl in
      (
        record {
          counted = omega (arith, c, v.counted, v.small, v.table, count_free-le m.buffers);
          table = omega (arith, length-set m.buffers i s, v.table);
          small = v.small;
          distinct = Distinct-set_free key i (create 1024) m.buffers h.0 h.1 n v.distinct;
          rings = AllValid-set i s m.buffers v.rings new_ring;
        },
        refl,
        omega (arith, length-set m.buffers i s, h.0),
        ground (arith, get_or-set_slot m.buffers i s h.0),
        ground (arith, get_or-set_slot m.buffers i s h.0),
        ap (λ (x : Slot). contents x.buf) (get_or-set_slot m.buffers i s h.0)
            ∙ (contents-create 1024 ∙ sym (ap bytes_of n)),
        λ k. new_pending k i h.0 h.1 n,
      )

  get_rec-found :
      (fuel i : ℕ) → index_of key m.buffers ≡ some i → get_rec (suc fuel) m key ≡ ring i m
  unfolding get_rec shift
  get_rec-found fuel i e =
      let z : 0 + i ≡ i = omega arith in
      rw (scan-index_of key 0 none m.buffers, e, get_rec) (ap (λ k. ring k m) z)

  get_rec-fresh :
      (fuel i : ℕ)
      → index_of key m.buffers ≡ none
      → first_free m.buffers ≡ some i
      → get_rec (suc fuel) m key ≡ ring i (allocate m i key)
  unfolding get_rec shift
  get_rec-fresh fuel i e f =
      let z : 0 + i ≡ i = omega arith in
      rw (scan-index_of key 0 none m.buffers, e, scan-first_free key 0 none m.buffers e, f, get_rec)
        (ap (λ k. ring k (allocate m k key)) z)

  get_rec-full :
      (fuel : ℕ)
      → index_of key m.buffers ≡ none
      → first_free m.buffers ≡ none
      → get_rec (suc fuel) m key ≡ (
          let again = get_rec fuel (garbage_collect m) key in
          if (garbage_collect m).num_free == 0 then null (garbage_collect m) else again)
  unfolding get_rec shift
  get_rec-full fuel e f =
      rw (scan-index_of key 0 none m.buffers, e, scan-first_free key 0 none m.buffers e, f, get_rec)

  -- the table after the collection
  abbrev collected : MultiRings
  collected = record m {
    buffers = reclaimed m.buffers;
    num_free = count_free (reclaimed m.buffers);
  }

  collected-IsValid : IsValid collected
  collected-IsValid = record {
    counted = refl;
    table = omega (arith, length-reclaimed m.buffers, v.table);
    small = v.small;
    distinct = Distinct-reclaimed m.buffers v.distinct;
    rings = AllValid-reclaimed m.buffers v.rings;
  }

all-Busy :
    (key : ℕ) (ss : List Slot)
    → find key ss ≡ none
    → count_free (reclaimed ss) ≡ 0
    → (reclaimed ss ≡ ss) × Busy key ss
unfolding find reclaim count_free
all-Busy key [] f c = (refl, tt)
all-Busy key (s ∷ ss) f c = ground (arith, all-Busy key ss)

module _ (key : ℕ) (m : MultiRings) (v : IsValid m) where
  Serves-full :
      index_of key m.buffers ≡ none → first_free m.buffers ≡ none → Serves key m (get_rec 2 m key)
  Serves-full e f =
      let m' : MultiRings = collected key m v in
      let v' : IsValid m' = collected-IsValid key m v in
      let n : find key m.buffers ≡ none = (index_of-none key m.buffers).0 e in
      let e' : index_of key m'.buffers ≡ none =
        (index_of-none key m'.buffers).1 (find-reclaimed-none key m.buffers n) in
      rw (get_rec-full key m v 1 e f, garbage_collect-reclaimed m v)
        (elim (Option-cases (first_free m'.buffers)) [
          | inl g ↦
              let c : count_free m'.buffers ≡ 0 = (first_free-none m'.buffers).0 g in
              let b = all-Busy key m.buffers n c in
              rw c (ground (arith, v.counted, b, c, (first_free-none m.buffers).0 f), b.1)
          | inr (i, g) ↦
              let h = new_slot key m' v' i e' g in
              let p = λ (k : ℕ). pending-reclaimed k m.buffers v.distinct in
              let some_free : (count_free m'.buffers == 0) ≡ false =
                ground (arith, g, first_free-none m'.buffers) in
              rw (some_free, get_rec-fresh key m' v' 0 i e' g)
                (h.0, h.1, h.2, h.3, h.4, h.5 ∙ p key, λ k. h.6 k ∙ p k)
        ])

-- For a valid table `get` comes back after at most one collection. It returns the slot of the
-- sender, holding the bytes that were pending from it, or NULL with the table unchanged, and then
-- every slot holds pending bytes of another sender. In no case do pending bytes of anyone change.
pub get-Serves : (key : ℕ) (m : MultiRings) → IsValid m → Serves key m (get m key)
unfolding get
get-Serves key m v = elim (Option-cases (index_of key m.buffers)) [
  | inr (i, e) ↦ rw (get_rec-found key m v 1 i e) (old_slot key m v i e)
  | inl e ↦ elim (Option-cases (first_free m.buffers)) [
    | inr (i, f) ↦ rw (get_rec-fresh key m v 1 i e f) (new_slot key m v i e f)
    | inl f ↦ Serves-full key m v e f
  ]
]
