-- ===== src/Sban/Mka/Rounds.antt =====
-- The number of parties and the round in a context of MKA.
use lib_smoke.Base.{
  ℕ, ◌+◌, ◌-◌, ◌≡◌, refl, ap, sym, List, some, Bool, true, false, ltb, if◌then◌else◌,
}
use lib_smoke.Sban.{Code, Ret, ok, fail, or_old, Polarssl, Arithmetic}
use lib_smoke.Sban.Bd2.Agreement.{and_then-ok}
use lib_smoke.Sban.Mka.{
  Context, set_part, broad_point, make_broadval, sum_points, remove_own, acc_broadval, compute_key,
}

-- a guard that was passed on the way to a result
pub past_guard :
    {A : Type 0} (b : Bool) (c : Code) (r : Ret A) (a : A)
    → (if b then fail c else r) ≡ ok a
    → (b ≡ false) × (r ≡ ok a)
past_guard true c r a h = absurd (cc h)
past_guard false c r a h = (refl, h)

module _ {Mpi Point Rng : Type 0} (p : Polarssl Mpi Point Rng) (q : Arithmetic Mpi Point) where
  pub set_part-rounds :
      (c c' : Context Mpi Point) (n : ℕ) (rng rng' : Rng)
      → set_part p q (some c) n rng ≡ ok (c', rng')
      → (c'.n ≡ n) × (c'.r ≡ 0)
  unfolding set_part
  set_part-rounds c c' n rng rng' e =
      let (ge, e1) = past_guard (ltb n 2) _ _ (c', rng') e in
      let (g, e2, e3) = and_then-ok (p.gen_keypair rng) _ (c', rng') e1 in
      let same = ap (λ (x : Ret (Context Mpi Point × Rng)). (or_old x (c', rng')).0) e3 in
      (
        sym (ap (λ (c : Context Mpi Point). c.n) same),
        sym (ap (λ (c : Context Mpi Point). c.r) same),
      )

  pub make_broadval-rounds :
      (c c' : Context Mpi Point) (n : ℕ) (bytes : List ℕ) (rng rng' : Rng)
      → make_broadval p q (some c) n rng ≡ ok (c', bytes, rng')
      → (c'.n ≡ c.n) × (c'.r ≡ c.r)
  unfolding make_broadval
  make_broadval-rounds c c' n bytes rng rng' e =
      let (within, e1) = past_guard (ltb c.n (c.r + 2)) _ _ (c', bytes, rng') e in
      let (m, e2, e3) = and_then-ok (broad_point p q c rng) _ (c', bytes, rng') e1 in
      let (b, e4, e5) = and_then-ok (p.write_point m.0 n) _ (c', bytes, rng') e3 in
      let same =
        ap (λ (x : Ret (Context Mpi Point × List ℕ × Rng)). (or_old x (c', bytes, rng')).0) e5 in
      (
        sym (ap (λ (c : Context Mpi Point). c.n) same),
        sym (ap (λ (c : Context Mpi Point). c.r) same),
      )

  pub acc_broadval-rounds :
      (c c' : Context Mpi Point) (buf : List ℕ) (n : ℕ) (rng rng' : Rng)
      → acc_broadval p q (some c) buf n rng ≡ ok (c', rng')
      → (c'.n ≡ c.n) × (c'.r ≡ (if ltb (c.r + 2) c.n then c.r + 1 else c.r))
  unfolding acc_broadval
  acc_broadval-rounds c c' buf n rng rng' e =
      let (within, e1) = past_guard (ltb c.n (c.r + 2)) _ _ (c', rng') e in
      let (sum, e2, e3) =
        and_then-ok (sum_points p q (c.n - 1) n (or_old q.set_zero p.zero_point) buf) _ (c', rng')
          e1 in
      let (t, e4, e5) = and_then-ok (remove_own p q c sum rng) _ (c', rng') e3 in
      let (r, e6, e7) = and_then-ok (q.lset (c.r + 1)) _ (c', rng') e5 in
      let (i, e8, e9) = and_then-ok (q.inv_mod r) _ (c', rng') e7 in
      let (m, e10, e11) = and_then-ok (p.mul i t.0 t.1) _ (c', rng') e9 in
      let same = ap (λ (x : Ret (Context Mpi Point × Rng)). (or_old x (c', rng')).0) e11 in
      (
        sym (ap (λ (c : Context Mpi Point). c.n) same),
        sym (ap (λ (c : Context Mpi Point). c.r) same),
      )

  pub compute_key-rounds :
      (c c' : Context Mpi Point) (n olen : ℕ) (bytes : List ℕ) (rng rng' : Rng)
      → compute_key p q (some c) n rng ≡ ok (c', olen, bytes, rng')
      → (c'.n ≡ c.n) × (c'.r ≡ c.r)
  unfolding compute_key
  compute_key-rounds c c' n olen bytes rng rng' e =
      let (within, e1) = past_guard (ltb c.n (c.r + 2)) _ _ (c', olen, bytes, rng') e in
      let (last, e2) = past_guard (ltb (c.r + 2) c.n) _ _ (c', olen, bytes, rng') e1 in
      let (m, e3, e4) = and_then-ok (p.mul c.a c.k rng) _ (c', olen, bytes, rng') e2 in
      let (fits, e5) =
        past_guard (ltb n (p.mpi_size (p.x_of m.0))) _ _ (c', olen, bytes, rng') e4 in
      let (b, e6, e7) = and_then-ok (p.write_binary (p.x_of m.0) _) _ (c', olen, bytes, rng') e5 in
      let same =
        ap
          (λ (x : Ret (Context Mpi Point × ℕ × List ℕ × Rng)). (or_old x (c', olen, bytes, rng')).0)
          e7 in
      (
        sym (ap (λ (c : Context Mpi Point). c.n) same),
        sym (ap (λ (c : Context Mpi Point). c.r) same),
      )
