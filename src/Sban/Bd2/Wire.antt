-- ===== src/Sban/Bd2/Wire.antt =====
-- What BD2 sends, in a buffer that may be longer: the other side reads the same point from it.
use lib_smoke.Base.{ℕ, ◌≤◌, ◌≡◌, ap, subst, List, ◌++◌, some, length}
use lib_smoke.Sban.{Ret, ok, or_old, Polarssl, opp}
use lib_smoke.Sban.Bd2.{Context, compute_shared_point, make_val, make_public}
use lib_smoke.Sban.Bd2.Agreement.{and_then-ok}

-- What polarssl documents of the bytes of a point, further: they are no more than the buffer holds, and
-- what follows them is not read.
pub record Wire {Mpi Point Rng : Type 0} (p : Polarssl Mpi Point Rng) : Type 0 where
  pub short : (q : Point) (n : ℕ) (bytes : List ℕ) → p.write_point q n ≡ ok bytes → length bytes ≤ n
  pub trailing :
      (q : Point) (bytes rest : List ℕ)
      → p.read_point bytes ≡ ok q
      → p.read_point (bytes ++ rest) ≡ ok q

module _ {Mpi Point Rng : Type 0} (p : Polarssl Mpi Point Rng) (wire : Wire p) where
  abbrev Result : Type 0
  Result = Ret (Context Mpi Point × List ℕ × Rng)

  pub make_public-short :
      (c c' : Context Mpi Point) (n : ℕ) (bytes : List ℕ) (rng rng' : Rng)
      → make_public p (some c) n rng ≡ ok (c', bytes, rng')
      → length bytes ≤ n
  unfolding make_public
  make_public-short c c' n bytes rng rng' e =
      let (g, e1, e2) = and_then-ok (p.gen_keypair rng) _ (c', bytes, rng') e in
      let (b, e3, e4) = and_then-ok (p.write_point g.1 n) _ (c', bytes, rng') e2 in
      let same : b ≡ bytes = ap (λ (x : Result). (or_old x (c', bytes, rng')).1) e4 in
      subst (λ (x : List ℕ). length x ≤ n) same (wire.short g.1 n b e3)

  pub make_val-short :
      (c c' : Context Mpi Point) (n : ℕ) (bytes : List ℕ) (rng rng' : Rng)
      → make_val p (some c) n rng ≡ ok (c', bytes, rng')
      → length bytes ≤ n
  unfolding make_val
  make_val-short c c' n bytes rng rng' e =
      let (r, e1, e2) = and_then-ok (compute_shared_point p c rng) _ (c', bytes, rng') e in
      let hidden : Point = or_old (p.add c.key (or_old (opp p r.0) p.zero_point)) c.x in
      let (b, e3, e4) = and_then-ok (p.write_point hidden n) _ (c', bytes, rng') e2 in
      let same : b ≡ bytes = ap (λ (x : Result). (or_old x (c', bytes, rng')).1) e4 in
      subst (λ (x : List ℕ). length x ≤ n) same (wire.short hidden n b e3)
