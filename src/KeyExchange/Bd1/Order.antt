-- ===== src/KeyExchange/Bd1/Order.antt =====
-- The order in which BD1 hands the values of the others to the library.
use lib_smoke.Base.{
  ℕ, ◌<◌, ◌≡◌, refl, ap, ap₂, sym, ◌∙◌, arith, List, [], ◌∷◌, ◌++◌, append-nil, false, ltb, ◌==◌,
  ◌||◌, All,
}
use lib_smoke.NodeCounter.NodeSet.{insert, member, member-insert, Increasing}
use lib_smoke.KeyExchange.Bd2Utils.{push}
use lib_smoke.KeyExchange.Bd1.{flat_keys, higher, lower, arrange}

All-middle : (P : ℕ → Type 0) (x : ℕ) (before after : List ℕ) → All P (before ++ x ∷ after) → P x
All-middle P x [] after a = a.0
All-middle P x (y ∷ before) after a = All-middle P x before after a.1

module _ (v : ℕ → List ℕ) where
  -- the ids with their values
  abbrev pub entries : List ℕ → List (ℕ × List ℕ)
  entries [] = []
  entries (k ∷ ks) = (k, v k) ∷ entries ks

  -- the values behind each other
  abbrev pub values : List ℕ → List ℕ
  values [] = []
  values (k ∷ ks) = v k ++ values ks

  flat_keys-entries : (ks : List ℕ) → flat_keys (entries ks) ≡ values ks
  unfolding flat_keys
  flat_keys-entries [] = refl
  flat_keys-entries (k ∷ ks) = ap (λ bytes. v k ++ bytes) (flat_keys-entries ks)

  -- the queue after these values have been pushed, the first of the list last
  abbrev pub push_all : List ℕ → List (ℕ × List ℕ)
  push_all [] = []
  push_all (k ∷ ks) = push (k, v k) (push_all ks)

  entries-append : (ks js : List ℕ) → entries (ks ++ js) ≡ entries ks ++ entries js
  entries-append [] js = refl
  entries-append (k ∷ ks) js = ap (λ es. (k, v k) ∷ es) (entries-append ks js)

  push-entries :
      (k : ℕ) (ys : List ℕ)
      → member k ys ≡ false
      → push (k, v k) (entries ys) ≡ entries (insert k ys)
  unfolding push member insert
  push-entries k [] n = refl
  push-entries k (y ∷ ys) n = ground (arith, n, push-entries k ys)

  -- no id comes twice
  abbrev pub Distinct : List ℕ → Type 0
  Distinct [] = Unit {0}
  Distinct (k ∷ ks) = (member k ks ≡ false) × Distinct ks

  -- the set of the ids
  abbrev pub collect : List ℕ → List ℕ
  collect [] = []
  collect (k ∷ ks) = insert k (collect ks)

  member-collect : (k : ℕ) (ks : List ℕ) → member k (collect ks) ≡ member k ks
  unfolding member
  member-collect k [] = refl
  member-collect k (j ∷ ks) =
      member-insert k j (collect ks) ∙ ap (λ b. (k == j) || b) (member-collect k ks)

  push_all-entries : (ks : List ℕ) → Distinct ks → push_all ks ≡ entries (collect ks)
  push_all-entries [] d = refl
  push_all-entries (k ∷ ks) d =
      ap (push (k, v k)) (push_all-entries ks d.1)
      ∙ push-entries k (collect ks) (member-collect k ks ∙ d.0)

  module _ (id : ℕ) where
    higher-of_lower :
        (ys : List ℕ) (rest : List (ℕ × List ℕ))
        → All (λ y. y < id) ys
        → higher id (entries ys ++ rest) ≡ higher id rest
    unfolding higher
    higher-of_lower [] rest a = refl
    higher-of_lower (y ∷ ys) rest a = ground (arith, a, higher-of_lower ys rest a.1)

    higher-of_higher : (ys : List ℕ) → All (λ y. id < y) ys → higher id (entries ys) ≡ entries ys
    unfolding higher
    higher-of_higher [] a = refl
    higher-of_higher (y ∷ ys) a = ground (arith, a, higher-of_higher ys a.1)

    lower-of_lower :
        (ys : List ℕ) (rest : List (ℕ × List ℕ))
        → All (λ y. y < id) ys
        → lower id (entries ys ++ rest) ≡ entries ys ++ lower id rest
    unfolding lower
    lower-of_lower [] rest a = refl
    lower-of_lower (y ∷ ys) rest a = ground (arith, a, lower-of_lower ys rest a.1)

    lower-of_higher : (ys : List ℕ) → All (λ y. id < y) ys → lower id (entries ys) ≡ []
    unfolding lower
    lower-of_higher [] a = refl
    lower-of_higher (y ∷ ys) a = ground (arith, a, lower-of_higher ys a.1)

    -- a set around one of its members
    All-before :
        (before after : List ℕ) → Increasing (before ++ id ∷ after) → All (λ y. y < id) before
    All-before [] after up = tt
    All-before (y ∷ ys) after up =
        (All-middle (λ k. y < k) id ys after up.0, All-before ys after up.1)

    All-after :
        (before after : List ℕ) → Increasing (before ++ id ∷ after) → All (λ y. id < y) after
    All-after [] after up = up.0
    All-after (y ∷ ys) after up = All-after ys after up.1

    higher-after :
        (before after : List ℕ)
        → Increasing (before ++ id ∷ after)
        → higher id (entries (before ++ id ∷ after)) ≡ entries after
    unfolding higher
    higher-after before after up =
        let own : ltb id id ≡ false = ground arith in
        ap (higher id) (entries-append before (id ∷ after))
        ∙ (higher-of_lower before (entries (id ∷ after)) (All-before before after up)
            ∙ rw own (higher-of_higher after (All-after before after up)))

    lower-before :
        (before after : List ℕ)
        → Increasing (before ++ id ∷ after)
        → lower id (entries (before ++ id ∷ after)) ≡ entries before
    unfolding lower
    lower-before before after up =
        let own : ltb id id ≡ false = ground arith in
        ap (lower id) (entries-append before (id ∷ after))
        ∙ (lower-of_lower before (entries (id ∷ after)) (All-before before after up)
            ∙ (ap (λ es. entries before ++ es)
                  (rw own (lower-of_higher after (All-after before after up)))
                ∙ append-nil (entries before)))

    -- In whatever order the values of the nodes arrive, each once, the library gets those of the nodes
    -- that follow the node on the circle of the ids, in their order and behind each other, without its own.
    pub arrange-circle :
        (before after ks : List ℕ)
        → Distinct ks
        → collect ks ≡ before ++ id ∷ after
        → Increasing (before ++ id ∷ after)
        → arrange id (push_all ks) ≡ values (after ++ before)
    unfolding arrange
    arrange-circle before after ks d set up =
        let queue = push_all-entries ks d ∙ ap entries set in
        ap (arrange id) queue
        ∙ ap flat_keys (
            ap₂ (λ (a b : List (ℕ × List ℕ)). a ++ b) (higher-after before after up)
              (lower-before before after up)
            ∙ sym (entries-append after before))
        ∙ flat_keys-entries (after ++ before)
