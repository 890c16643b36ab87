-- ===== src/Sban/Gdh2/Middle.antt =====
-- GDH2: the list that a node in the middle sends on.
use lib_smoke.Base.{
  ℕ, suc, ◌+◌, ◌-◌, ◌≤◌, ◌<◌, ◌≡◌, refl, ap, sym, ◌∙◌, subst, arith, List, [], ◌∷◌, ◌++◌, map,
  append_assoc, some, true, false, ◌&&◌, ltb, leb, ◌==◌, length,
}
use lib_smoke.Sban.{Ret, ok, or_old, Polarssl, Arithmetic}
use lib_smoke.Sban.Bd2.Agreement.{Laws, and_then-ok}
use lib_smoke.Sban.Util.{Curve}
use lib_smoke.Sban.Gdh2.{Context, multiply, add_second, term, middle_val, make_val}
use lib_smoke.Sban.Gdh2.Values.{
  Products, not_first, length-missing, prod, missing, Packed, multiply-Packed,
}
use lib_smoke.Sban.Gdh2.SameKey.{if_true}

module _ {Mpi Point Rng : Type 0} (p : Polarssl Mpi Point Rng) (q : Arithmetic Mpi Point)
    (k : Curve Mpi Point Rng) (l : Laws p) (g : Products p q k l) where
  -- the rounds from the first on: the product, the old one, and the others
  multiply-first :
      (rounds m o : ℕ) (priv : Mpi) (s : Point) (ss : List Point) (buf : List ℕ) (rng : Rng)
      (r : List ℕ × Rng)
      → length ss ≡ rounds
      → Packed p q k l g (s ∷ ss) buf
      → multiply p q k (suc rounds) 0 priv buf m o [] rng ≡ ok r
      → Packed p q k l g (l.times priv s ∷ s ∷ map (l.times priv) ss) r.0
  unfolding multiply
  multiply-first rounds m o priv s ss buf rng r f w e =
      let (bytes, rest, size, wrote, at, ws) = w in
      let (t, a1, a2) = and_then-ok (q.read_next buf m) _ r e in
      let (u, b1, b2) = and_then-ok (p.mul priv t.0 rng) _ r a2 in
      let (sent, c1, c2) = and_then-ok (p.write_point u.0 (o - length {A = ℕ} [])) _ r b2 in
      let (old, d1, d2) = and_then-ok (p.write_point t.0 (o - length sent)) _ r c2 in
      let (t_s, t_rest) =
        g.next s size m bytes rest t wrote (ap (λ b. q.read_next b m) (sym at) ∙ a1) in
      let (more, f1, f2) =
        multiply-Packed p q k l g rounds (0 + 1) m o priv ss t.1 (sent ++ old) u.1 r (omega arith) f
          (subst (Packed p q k l g ss) (sym t_rest) ws) d2 in
      let u_s : u.0 ≡ l.times priv s =
        l.multiplied priv t.0 u.0 rng u.1 b1 ∙ ap (l.times priv) t_s in
      (
        sent,
        old ++ more,
        o - length {A = ℕ} [],
        ap (λ s. p.write_point s (o - length {A = ℕ} [])) (sym u_s) ∙ c1,
        f1 ∙ append_assoc sent old more,
        (
          old,
          more,
          o - length sent,
          ap (λ s. p.write_point s (o - length sent)) (sym t_s) ∙ d1,
          refl,
          f2,
        ),
      )

  -- A node in the middle of GDH2 that is not the second one, and gets the product of the secrets `ps` of
  -- those before it and the products that leave one of these out, sends on, if `gdh2_make_val`
  -- succeeds, the same list for `ps` and its own secret in front; its context stays as it was.
  pub make_val-missing :
      (c c' : Context Mpi) (index m o : ℕ) (ps : List Mpi) (buf out : List ℕ) (r r' : Rng)
      → 3 ≤ index
      → index < c.n
      → length ps + 1 ≡ index
      → Packed p q k l g (prod p q k l g ps ∷ missing p q k l g ps) buf
      → make_val p q k (some c) index buf m o r ≡ ok (c', out, r')
      → Packed p q k l g (prod p q k l g (c.priv ∷ ps) ∷ missing p q k l g (c.priv ∷ ps)) out
        × (c ≡ c')
  unfolding make_val middle_val add_second
  make_val-missing c c' index m o ps buf out r r' three less size w e =
      let last : (index == c.n) ≡ false = ground (arith, less) in
      let within : (leb 2 index && ltb index c.n) ≡ true = ground (arith, three, less) in
      let two : (index == 2) ≡ false = ground (arith, three) in
      let e1 = not_first (index == c.n) _ _ (c', out, r') last e in
      let e2 = if_true (leb 2 index && ltb index c.n) _ _ (c', out, r') within e1 in
      let (x, a1, a2) =
        and_then-ok (multiply p q k (term p q k index) 0 c.priv buf m o [] r) _ (c', out, r') e2 in
      let (y, b1, b2) = and_then-ok (add_second p q k index c.priv o x.0 x.1) _ (c', out, r') a2 in
      let same = ap (λ (z : Ret (Context Mpi × List ℕ × Rng)). or_old z (c', out, r')) b2 in
      let whole : term p q k index ≡ index = rw two refl in
      let rounds : term p q k index ≡ suc (length ps) = omega (arith, whole, size) in
      let packed =
        multiply-first (length ps) m o c.priv (prod p q k l g ps) (missing p q k l g ps) buf r x
          (length-missing p q k l g ps) w
          (ap (λ n. multiply p q k n 0 c.priv buf m o [] r) (sym rounds) ∙ a1) in
      let nothing : x ≡ y =
        ap (λ (z : Ret (List ℕ × Rng)). or_old z y)
          (not_first (index == 2) _ (ok (x.0, x.1)) y two b1) in
      let sent : x.0 ≡ out =
        ap (λ (z : List ℕ × Rng). z.0) nothing
        ∙ ap (λ (z : Context Mpi × List ℕ × Rng). z.1) same in
      (
        subst (Packed p q k l g (prod p q k l g (c.priv ∷ ps) ∷ missing p q k l g (c.priv ∷ ps)))
            sent packed,
        ap (λ (z : Context Mpi × List ℕ × Rng). z.0) same,
      )
