-- ===== src/KeyExchange/Neighbours/Circle.antt =====
-- What the loop over an increasing set finds, and that successor and predecessor are inverse.
use lib_smoke.Base.{
  ℕ, if◌then◌else◌, ◌==◌, ◌+◌, ◌^◌, ◌≤◌, ◌<◌, ◌≡◌, refl, ◌∙◌, arith, List, [], ◌∷◌, ◌++◌, length,
  All,
}
use lib_smoke.NodeCounter.NodeSet.{Increasing}
use lib_smoke.KeyExchange.Neighbours.{Network, start, visit, visit_all, wrap, network}

-- the last element, or `d`
abbrev pub last_or : ℕ → List ℕ → ℕ
last_or d [] = d
last_or d (x ∷ xs) = last_or x xs

-- the first element, or `d`
abbrev pub head_or : ℕ → List ℕ → ℕ
head_or d [] = d
head_or d (x ∷ xs) = x

module _ (id : ℕ) where
  -- nodes below `id`, once one of them was visited
  below_rest :
      (xs : List ℕ) (n : Network)
      → All (λ x. n.prev < x) xs
      → All (λ x. x < id) xs
      → Increasing xs
      → n.prev < id
      → n.first ≤ n.prev
      → n.next ≡ id
      → n.last ≡ id
      → n.pos + length xs < 2 ^ 16
      → visit_all id n xs ≡ record n { prev = last_or n.prev xs; pos = n.pos + length xs }
  unfolding visit_all visit
  below_rest [] n a b i p f x l s = ground arith
  below_rest (x ∷ xs) n a b i p f nx l s =
      let e : visit id n x ≡ record n { prev = x; pos = n.pos + 1 } = ground (arith, a, b) in
      let n' : Network = record n { prev = x; pos = n.pos + 1 } in
      rw e (below_rest xs n' i.0 b.1 i.1 b.0 (omega (arith, a.0)) nx l (omega arith) ∙ ground arith)

  visit_below :
      (xs : List ℕ)
      → All (λ x. x < id) xs
      → Increasing xs
      → length xs + 1 < 2 ^ 16
      → visit_all id (start id) xs
        ≡ record (start id) { prev = last_or id xs; first = head_or id xs; pos = 1 + length xs }
  unfolding visit_all visit
  visit_below [] b i s = refl
  visit_below (x ∷ xs) b i s =
      let n : Network = record (start id) { prev = x; first = x; pos = 2 } in
      let e : visit id (start id) x ≡ n = ground (arith, b) in
      rw e (below_rest xs n i.0 b.1 i.1 b.0 (omega arith) refl refl (omega arith) ∙ ground arith)

  -- `id` itself changes nothing
  at_id : (n : Network) → n.prev ≤ id → n.first ≤ id → n.next ≡ id → n.last ≡ id → visit id n id ≡ n
  unfolding visit
  at_id n p f x l = ground arith

  -- nodes above `id`, once one of them was visited
  above_rest :
      (xs : List ℕ) (n : Network)
      → All (λ x. n.last < x) xs
      → Increasing xs
      → n.prev ≤ id
      → n.first ≤ id
      → id < n.next
      → n.next ≤ n.last
      → visit_all id n xs ≡ record n { last = last_or n.last xs }
  unfolding visit_all visit
  above_rest [] n a i p f x l = ground arith
  above_rest (x ∷ xs) n a i p f nx l =
      let n' : Network = record n { last = x } in
      let e : visit id n x ≡ n' = ground (arith, a) in
      rw e (above_rest xs n' i.0 i.1 p f nx (omega (arith, a.0)))

  visit_above :
      (xs : List ℕ) (n : Network)
      → All (λ x. id < x) xs
      → Increasing xs
      → n.prev ≤ id
      → n.first ≤ id
      → n.next ≡ id
      → n.last ≡ id
      → visit_all id n xs ≡ record n { last = last_or id xs; next = head_or id xs }
  unfolding visit_all visit
  visit_above [] n a i p f x l = ground arith
  visit_above (x ∷ xs) n a i p f nx l =
      let n' : Network = record n { last = x; next = x } in
      let e : visit id n x ≡ n' = ground (arith, a) in
      rw e (above_rest xs n' i.0 i.1 p f a.0 (omega arith) ∙ ground arith)

All-append : (P : ℕ → Type 0) (xs ys : List ℕ) → All P (xs ++ ys) → All P xs × All P ys
All-append P [] ys a = (tt, a)
All-append P (x ∷ xs) ys a = let r = All-append P xs ys a.1 in ((a.0, r.0), r.1)

Increasing-append : (xs ys : List ℕ) → Increasing (xs ++ ys) → Increasing xs × Increasing ys
Increasing-append [] ys i = (tt, i)
Increasing-append (x ∷ xs) ys i =
    let r = Increasing-append xs ys i.1 in (((All-append (λ y. x < y) xs ys i.0).0, r.0), r.1)

All-below : (x : ℕ) (xs ys : List ℕ) → Increasing (xs ++ x ∷ ys) → All (λ y. y < x) xs
All-below x [] ys i = tt
All-below x (y ∷ xs) ys i = ((All-append (λ z. y < z) xs (x ∷ ys) i.0).1.0, All-below x xs ys i.1)

visit_all-append :
    (id : ℕ) (n : Network) (xs ys : List ℕ)
    → visit_all id n (xs ++ ys) ≡ visit_all id (visit_all id n xs) ys
unfolding visit_all
visit_all-append id n [] ys = refl
visit_all-append id n (x ∷ xs) ys = visit_all-append id (visit id n x) xs ys

last_or-lt : (d b : ℕ) (xs : List ℕ) → d < b → All (λ x. x < b) xs → last_or d xs < b
last_or-lt d b [] h a = h
last_or-lt d b (x ∷ xs) h a = last_or-lt x b xs a.0 a.1

last_or-le : (id : ℕ) (xs : List ℕ) → All (λ x. x < id) xs → last_or id xs ≤ id
last_or-le id [] a = omega arith
last_or-le id (x ∷ xs) a = omega (arith, last_or-lt x id xs a.0 a.1)

head_or-le : (id : ℕ) (xs : List ℕ) → All (λ x. x < id) xs → head_or id xs ≤ id
head_or-le id [] a = omega arith
head_or-le id (x ∷ xs) a = omega (arith, a.0)

wrap_prev :
    (id d : ℕ) (below : List ℕ)
    → All (λ x. x < id) below
    → (if last_or id below == id then d else last_or id below) ≡ last_or d below
wrap_prev id d [] a = ground arith
wrap_prev id d (x ∷ xs) a = ground (arith, last_or-lt x id xs a.0 a.1)

wrap_next :
    (id d : ℕ) (above : List ℕ)
    → All (λ x. id < x) above
    → (if head_or id above == id then d else head_or id above) ≡ head_or d above
wrap_next id d [] a = ground arith
wrap_next id d (x ∷ xs) a = ground (arith, a.0)

-- The node `id` of an increasing set, with `below` and `above` around it: its predecessor is the last
-- node below it, or the last of all, its successor the first above it, or the first of all, and its
-- position counts the nodes up to it.
pub network-split :
    (id : ℕ) (below above : List ℕ)
    → Increasing (below ++ id ∷ above)
    → length below + 1 < 2 ^ 16
    → network id (below ++ id ∷ above) ≡ record {
      prev = last_or (last_or id above) below;
      next = head_or (head_or id below) above;
      first = head_or id below;
      last = last_or id above;
      pos = 1 + length below;
    }
unfolding network wrap visit_all
network-split id below above i s =
    let b : All (λ x. x < id) below = All-below id below above i in
    let parts = Increasing-append below (id ∷ above) i in
    let n : Network = record (start id) {
      prev = last_or id below;
      first = head_or id below;
      pos = 1 + length below;
    } in
    let visited : visit_all id (start id) (below ++ id ∷ above)
        ≡ record n { last = last_or id above; next = head_or id above } =
      rw
        (
          visit_all-append id (start id) below (id ∷ above),
          visit_below id below b parts.0 s,
          at_id id n (last_or-le id below b) (head_or-le id below b) refl refl,
        )
        (visit_above id above n parts.1.0 parts.1.1 (last_or-le id below b) (head_or-le id below b)
          refl refl) in
    rw visited (
      ground (
        arith,
        wrap_prev id (last_or id above) below b,
        wrap_next id (head_or id below) above parts.1.0,
      ))
