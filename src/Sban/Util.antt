-- ===== src/Sban/Util.antt =====
-- `ecp_gen_privkey` of Project/libsmoke/libs/sknx/libs/sban/src/util.c, on a short Weierstrass curve,
-- as those that the program uses are: random numbers are tried until one is in range.
use lib_smoke.Base.{
  ℕ, zero, suc, ◌+◌, ◌-◌, ◌*◌, ◌/◌, ◌≤◌, ◌≡◌, ◌⊎◌, refl, arith, List, Bool, true, false, not, ◌||◌,
  ltb, if◌then◌else◌, Bool-cases, inl, inr,
}
use lib_smoke.Sban.{Code, polarssl_error, Ret, ok, fail, Ret-cases, and_then}

-- What of the curve and of polarssl `ecp_gen_privkey` and GDH2 use: the generator, the length of the
-- prime in bytes and of the order in bits, the random generator, `mpi_read_binary`, `mpi_shift_r`, and
-- the comparisons with one and with the order.
pub record Curve (Mpi Point Rng : Type 0) : Type 0 where
  pub generator : Point
  pub prime_size : ℕ
  pub nbits : ℕ
  pub random : Rng → ℕ → Ret (List ℕ × Rng)
  pub read_binary : List ℕ → Ret Mpi
  pub shift_r : Mpi → ℕ → Ret Mpi
  pub below_one : Mpi → Bool
  pub below_order : Mpi → Bool

module _ {Mpi Point Rng : Type 0} (k : Curve Mpi Point Rng) where
  -- one number
  unfoldable pub try_number : Rng → Ret (Mpi × Rng)
  try_number rng =
      let n_size = (k.nbits + 7) / 8 in
      and_then (k.random rng n_size) λ r.
        and_then (k.read_binary r.0)
          λ d. and_then (k.shift_r d (8 * n_size - k.nbits)) λ d'. ok (d', r.1)

  abbrev pub in_range : Mpi → Bool
  in_range d = not (k.below_one d || not (k.below_order d))

  -- The `do` loop, when `count` tries have been made, `fuel` rounds at most. Out of fuel it would fail
  -- with another code; `POLARSSL_ERR_ECP_RANDOM_FAILED` is -0x4D00.
  unfoldable pub try_from : ℕ → ℕ → Rng → Ret (Mpi × Rng)
  unfolding try_number
  try_from zero count rng = fail (polarssl_error 0)
  try_from (suc fuel) count rng = and_then (try_number rng) λ r.
      let more = try_from fuel (count + 1) r.1 in
      if ltb 30 (count + 1)
      then fail (polarssl_error 0x4d00)
      else if in_range r.0
      then ok r
      else more

  unfoldable pub gen_privkey : Rng → Ret (Mpi × Rng)
  unfolding try_from
  gen_privkey rng = try_from 31 0 rng

  -- With fuel for the tries that are left, more fuel changes nothing.
  try_from-enough :
      (fuel fuel' count : ℕ) (rng : Rng)
      → 31 ≤ fuel + count
      → 31 ≤ fuel' + count
      → count ≤ 30
      → try_from fuel count rng ≡ try_from fuel' count rng
  unfolding try_from
  try_from-enough zero fuel' count rng h h' c = absurd (omega arith)
  try_from-enough (suc fuel) zero count rng h h' c = absurd (omega arith)
  try_from-enough (suc fuel) (suc fuel') count rng h h' c = elim (Ret-cases (try_number rng)) [
    | inr f ↦ rw f.1 refl
    | inl r ↦ elim (Bool-cases (ltb 30 (count + 1))) [
      | inl last ↦ rw (r.1, last) refl
      | inr more ↦
          rw
            (
              r.1,
              more,
              try_from-enough fuel fuel' (count + 1) r.0.1 (omega (arith, h)) (omega (arith, h'))
                  (ground (arith, more)),
            )
            refl
    ]
  ]

  -- a secret that is made is not below one, and is below the order
  abbrev pub InRange : Ret (Mpi × Rng) → Type 0
  InRange (ok r) = (k.below_one r.0 ≡ false) × (k.below_order r.0 ≡ true)
  InRange (fail c) = Unit {0}

  in_range-tests :
      (d : Mpi) → in_range d ≡ true → (k.below_one d ≡ false) × (k.below_order d ≡ true)
  in_range-tests d e = elim (Bool-cases (k.below_one d)) [
    | inl y ↦ absurd (ground (arith, y, e))
    | inr n ↦ elim (Bool-cases (k.below_order d)) [
      | inl y ↦ (n, y)
      | inr m ↦ absurd (ground (arith, n, m, e))
    ]
  ]

  try_from-InRange : (fuel count : ℕ) (rng : Rng) → InRange (try_from fuel count rng)
  unfolding try_from
  try_from-InRange zero count rng = tt
  try_from-InRange (suc fuel) count rng = elim (Ret-cases (try_number rng)) [
    | inr f ↦ rw f.1 tt
    | inl r ↦ elim (Bool-cases (ltb 30 (count + 1))) [
      | inl last ↦ rw (r.1, last) tt
      | inr more ↦ elim (Bool-cases (in_range r.0.0)) [
        | inl y ↦ rw (r.1, more, y) (in_range-tests r.0.0 y)
        | inr n ↦ rw (r.1, more, n) (try_from-InRange fuel (count + 1) r.0.1)
      ]
    ]
  ]

  -- What comes of `n` numbers at most: a call fails, or the last number has been made, which is not
  -- looked at, or a number is in range, or it is not and another one is tried.
  pub data Tried : ℕ → Rng → Ret (Mpi × Rng) → Type 0 where
    errs : (n : ℕ) (rng : Rng) (c : Code) → try_number rng ≡ fail c → Tried (suc n) rng (fail c)
    gives_up :
        (rng : Rng) (r : Mpi × Rng)
        → try_number rng ≡ ok r
        → Tried 1 rng (fail (polarssl_error 0x4d00))
    finds :
        (n : ℕ) (rng : Rng) (r : Mpi × Rng)
        → try_number rng ≡ ok r
        → k.below_one r.0 ≡ false
        → k.below_order r.0 ≡ true
        → Tried (suc (suc n)) rng (ok r)
    again :
        (n : ℕ) (rng : Rng) (r : Mpi × Rng) (x : Ret (Mpi × Rng))
        → try_number rng ≡ ok r
        → (k.below_one r.0 ≡ true) ⊎ (k.below_order r.0 ≡ false)
        → Tried (suc n) r.1 x
        → Tried (suc (suc n)) rng x

  out_of_range : (d : Mpi) → in_range d ≡ false → (k.below_one d ≡ true) ⊎ (k.below_order d ≡ false)
  out_of_range d e = elim (Bool-cases (k.below_one d)) [
    | inl y ↦ inl y
    | inr n ↦ elim (Bool-cases (k.below_order d)) [
      | inl y ↦ absurd (ground (arith, n, y, e))
      | inr m ↦ inr m
    ]
  ]

  try_from-Tried :
      (fuel count : ℕ) (rng : Rng)
      → suc fuel + count ≡ 31
      → Tried (suc fuel) rng (try_from (suc fuel) count rng)
  unfolding try_from
  try_from-Tried zero count rng h =
      let last : ltb 30 (count + 1) ≡ true = ground (arith, h) in
      elim (Ret-cases (try_number rng)) [
        | inr f ↦ rw f.1 (errs 0 rng f.0 f.1)
        | inl r ↦ rw (r.1, last) (gives_up rng r.0 r.1)
      ]
  try_from-Tried (suc fuel) count rng h =
      let more : ltb 30 (count + 1) ≡ false = ground (arith, h) in
      elim (Ret-cases (try_number rng)) [
        | inr f ↦ rw f.1 (errs (suc fuel) rng f.0 f.1)
        | inl r ↦ elim (Bool-cases (in_range r.0.0)) [
          | inl y ↦
              let (one, order) = in_range-tests r.0.0 y in
              rw (r.1, more, y) (finds fuel rng r.0 r.1 one order)
          | inr n ↦
              let rest = try_from-Tried fuel (count + 1) r.0.1 (omega (arith, h)) in
              rw (r.1, more, n) (again fuel rng r.0 _ r.1 (out_of_range r.0.0 n) rest)
        ]
      ]

  -- The loop of `ecp_gen_privkey` ends after 31 rounds at most: with fuel for that many, or for more,
  -- the result is the same. It is what comes of 31 numbers at most: the failure of a call, or the first
  -- number in range, if it is among the first 30, or else the error of a generator that gives none; and
  -- a secret that it gives is at least one and below the order.
  pub gen_privkey-Tried :
      (fuel : ℕ) (rng : Rng)
      → 31 ≤ fuel
      → (try_from fuel 0 rng ≡ gen_privkey rng)
        × Tried 31 rng (gen_privkey rng)
        × InRange (gen_privkey rng)
  unfolding gen_privkey
  gen_privkey-Tried fuel rng h = (
    try_from-enough fuel 31 0 rng (omega (arith, h)) (omega arith) (omega arith),
    try_from-Tried 30 0 rng refl,
    try_from-InRange 31 0 rng,
  )
