-- ===== src/NodeCounter/NodeSet.antt =====
-- `nodeset_t`, a `std::set<uint16_t>`: an increasing list.
use lib_smoke.Base.{
  subst, ℕ, suc, ◌<◌, ◌≡◌, refl, arith, List, [], ◌∷◌, Bool, false, ◌||◌, ltb, ◌==◌, if◌then◌else◌,
  length, All, Bool-cases, true, inl, inr, ◌≤◌,
}

unfoldable pub insert : ℕ → List ℕ → List ℕ
insert x [] = x ∷ []
insert x (y ∷ ys) =
    let rest = insert x ys in if ltb x y then x ∷ y ∷ ys else if x == y then y ∷ ys else y ∷ rest

unfoldable pub member : ℕ → List ℕ → Bool
member k [] = false
member k (y ∷ ys) = (k == y) || member k ys

abbrev pub Increasing : List ℕ → Type 0
Increasing [] = Unit {0}
Increasing (x ∷ xs) = All (λ y. x < y) xs × Increasing xs

pub member-insert : (k x : ℕ) (ys : List ℕ) → member k (insert x ys) ≡ ((k == x) || member k ys)
unfolding member insert
member-insert k x [] = refl
member-insert k x (y ∷ ys) = ground (arith, member-insert k x ys)

pub length-insert :
    (x : ℕ) (ys : List ℕ) → member x ys ≡ false → length (insert x ys) ≡ suc (length ys)
unfolding member insert
length-insert x [] h = refl
length-insert x (y ∷ ys) h = ground (arith, length-insert x ys)

pub insert-All : (P : ℕ → Type 0) (x : ℕ) (ys : List ℕ) → P x → All P ys → All P (insert x ys)
unfolding insert
insert-All P x [] h a = (h, tt)
insert-All P x (y ∷ ys) h a = elim (Bool-cases (ltb x y)) [
  | inl b ↦ rw b (h, a)
  | inr b ↦ elim (Bool-cases (x == y)) [
    | inl e ↦ rw (b, e) a
    | inr e ↦ rw (b, e) (a.0, insert-All P x ys h a.1)
  ]
]

All-lt : (a b : ℕ) (ys : List ℕ) → a < b → All (λ y. b < y) ys → All (λ y. a < y) ys
All-lt a b [] h p = tt
All-lt a b (y ∷ ys) h p = (omega arith, All-lt a b ys h p.1)

pub insert-Increasing : (x : ℕ) (ys : List ℕ) → Increasing ys → Increasing (insert x ys)
unfolding insert
insert-Increasing x [] h = (tt, tt)
insert-Increasing x (y ∷ ys) h =
    ground (arith, h, insert-All (λ k. y < k) x ys, All-lt x y ys, insert-Increasing x ys h.1)

member-above : (b x : ℕ) (ys : List ℕ) → All (λ y. b < y) ys → member x ys ≡ true → b < x
unfolding member
member-above b x [] a m = absurd (cc m)
member-above b x (y ∷ ys) a m = ground (arith, a, m, member-above b x ys a.1)

All-later :
    (n : ℕ) (ns us : List ℕ)
    → All (λ u. n < u) us
    → All (λ u. member u (n ∷ ns) ≡ true) us
    → All (λ u. member u ns ≡ true) us
unfolding member
All-later n ns [] a m = tt
All-later n ns (u ∷ us) a m = (ground (arith, a, m), All-later n ns us a.1 m.1)

-- a set within another is no larger
pub length-subset :
    (us ns : List ℕ)
    → Increasing us
    → Increasing ns
    → All (λ u. member u ns ≡ true) us
    → length us ≤ length ns
unfolding member
length-subset [] ns up up' m = omega arith
length-subset (u ∷ us) [] up up' m = absurd (cc m.0)
length-subset (u ∷ us) (n ∷ ns) up up' m = elim (Bool-cases (u == n)) [
  | inl e ↦
      let same : u ≡ n = ground (arith, e) in
      let above = subst (λ k. All (λ y. k < y) us) same up.0 in
      omega (arith, length-subset us ns up.1 up'.1 (All-later n ns us above m.1))
  | inr e ↦
      let later : member u ns ≡ true = ground (arith, m.0, e) in
      let above = member-above n u ns up'.0 later in
      omega (
        arith,
        length-subset (u ∷ us) ns up up'.1
            (later, All-later n ns us (All-lt n u us above up.0) m.1),
      )
]
