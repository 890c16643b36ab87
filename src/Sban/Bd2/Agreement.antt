-- ===== src/Sban/Bd2/Agreement.antt =====
-- In BD2 a node comes to the chair's key.
use lib_smoke.Base.{ℕ, ◌≡◌, refl, ap, sym, ◌∙◌, List, some, true, false, Bool-cases, inl, inr}
use lib_smoke.Sban.{Ret, ok, fail, and_then, or_old, Polarssl, opp}
use lib_smoke.Sban.Bd2.{
  Context, compute_shared_point, make_val, import_val, calc_key, make_public, read_public,
}

-- What polarssl documents of the operations: they are those of a group, when memory does not run out,
-- and a point that was written is read back.
pub record Laws {Mpi Point Rng : Type 0} (p : Polarssl Mpi Point Rng) : Type 0 where
  pub times : Mpi → Point → Point
  pub plus : Point → Point → Point
  pub base : Point
  pub negate : Mpi → Mpi
  pub generated :
      (r r' : Rng) (d : Mpi) (q : Point) → p.gen_keypair r ≡ ok (d, q, r') → q ≡ times d base
  pub multiplied : (d : Mpi) (q s : Point) (r r' : Rng) → p.mul d q r ≡ ok (s, r') → s ≡ times d q
  pub added : (a b : Point) → p.add a b ≡ ok (plus a b)
  pub copied : (q : Point) → p.copy q ≡ ok q
  pub negated : (y : Mpi) → p.sub_from_prime y ≡ ok (negate y)
  pub self_inverse : (k q : Point) → p.is_null (p.y_of q) ≡ true → plus (plus k q) q ≡ k
  pub inverse :
      (k q : Point)
      → p.is_null (p.y_of q) ≡ false
      → plus (plus k (p.set_y q (negate (p.y_of q)))) q ≡ k
  pub commutes : (a b : Mpi) → times a (times b base) ≡ times b (times a base)
  pub written :
      (q : Point) (n : ℕ) (bytes : List ℕ)
      → p.write_point q n ≡ ok bytes
      → p.read_point bytes ≡ ok q

-- a chain that succeeds
pub and_then-ok :
    {A B : Type 0} (r : Ret A) (f : A → Ret B) (b : B)
    → and_then r f ≡ ok b
    → (a : A) × (r ≡ ok a) × (f a ≡ ok b)
and_then-ok (ok a) f b e = (a, refl, e)
and_then-ok (fail c) f b e = absurd (cc e)

module _ {Mpi Point Rng : Type 0} (p : Polarssl Mpi Point Rng) (l : Laws p) where
  -- `ecp_opp` gives the inverse
  opp-inverse :
      (q : Point) → (q' : Point) × (opp p q ≡ ok q') × ((k : Point) → l.plus (l.plus k q') q ≡ k)
  unfolding opp
  opp-inverse q = elim (Bool-cases (p.is_null (p.y_of q))) [
    | inl n ↦ (q, rw (l.copied q, n) refl, λ k. l.self_inverse k q n)
    | inr n ↦ (
      p.set_y q (l.negate (p.y_of q)),
      rw (l.copied q, n, l.negated (p.y_of q)) refl,
      λ k. l.inverse k q n,
    )
  ]

  shared-times :
      (c : Context Mpi Point) (rng rng' : Rng) (q : Point)
      → compute_shared_point p c rng ≡ ok (q, rng')
      → q ≡ l.times c.priv c.peer
  unfolding compute_shared_point
  shared-times c rng rng' q e =
      let (u, e1, e2) = and_then-ok (p.check_pubkey c.peer) _ (q, rng') e in
      let (r, e3, e4) = and_then-ok (p.mul c.priv c.peer rng) _ (q, rng') e2 in
      elim (Bool-cases (p.is_zero r.0)) [
        | inl z ↦ absurd (cc (e4, z))
        | inr z ↦
            let same : r ≡ (q, rng') = cc (e4, z) in
            l.multiplied c.priv c.peer q rng rng' (e3 ∙ ap ok same)
      ]

  abbrev Result : Type 0
  Result = Ret (Context Mpi Point × Rng)

  pub calc_key-plus :
      (c c' : Context Mpi Point) (rng rng' : Rng)
      → calc_key p (some c) rng ≡ ok (c', rng')
      → c'.key ≡ l.plus c.x (l.times c.priv c.peer)
  unfolding calc_key
  calc_key-plus c c' rng rng' e =
      let (r, e1, e2) = and_then-ok (compute_shared_point p c rng) _ (c', rng') e in
      let (q, e3, e4) = and_then-ok (p.add c.x r.0) _ (c', rng') e2 in
      let s = shared-times c rng r.1 r.0 e1 in
      let k : c'.key ≡ q = sym (ap (λ (x : Result). (or_old x (c', rng')).0.key) e4) in
      let q_eq : q ≡ l.plus c.x r.0 = ap (λ x. or_old x q) (sym e3 ∙ l.added c.x r.0) in
      k ∙ (q_eq ∙ ap (l.plus c.x) s)

  -- what `make_public` sends, and what it leaves
  pub make_public-times :
      (c c' : Context Mpi Point) (n : ℕ) (bytes : List ℕ) (rng rng' : Rng)
      → make_public p (some c) n rng ≡ ok (c', bytes, rng')
      → (p.read_point bytes ≡ ok (l.times c'.priv l.base)) × (c'.key ≡ c.key) × (c'.peer ≡ c.peer)
  unfolding make_public
  make_public-times c c' n bytes rng rng' e =
      let (g, e1, e2) = and_then-ok (p.gen_keypair rng) _ (c', bytes, rng') e in
      let (b, e3, e4) = and_then-ok (p.write_point g.1 n) _ (c', bytes, rng') e2 in
      let made : Context Mpi Point = record c { priv = g.0; pub_point = g.1 } in
      let same : (made, b, g.2) ≡ (c', bytes, rng') =
        ap (λ (x : Ret (Context Mpi Point × List ℕ × Rng)). or_old x (c', bytes, rng')) e4 in
      let sent = l.written g.1 n b e3 in
      (
        ap p.read_point (sym (ap (λ (x : Context Mpi Point × List ℕ × Rng). x.1) same))
            ∙ (sent
                ∙ ap ok (
                    l.generated rng g.2 g.0 g.1 e1
                    ∙ ap (λ (x : Context Mpi Point × List ℕ × Rng). l.times x.0.priv l.base) same)),
        sym (ap (λ (x : Context Mpi Point × List ℕ × Rng). x.0.key) same),
        sym (ap (λ (x : Context Mpi Point × List ℕ × Rng). x.0.peer) same),
      )

  -- what `read_public` and `import_val` take in
  pub read_public-peer :
      (c c' : Context Mpi Point) (bytes : List ℕ) (q : Point)
      → p.read_point bytes ≡ ok q
      → read_public p (some c) bytes ≡ ok c'
      → record c { peer = q } ≡ c'
  unfolding read_public
  read_public-peer c c' bytes q r e =
      ap (λ (x : Ret (Context Mpi Point)). or_old x c')
        (sym (ap (λ x. and_then x (λ q. ok (record c { peer = q }))) r) ∙ e)

  pub import_val-x :
      (c c' : Context Mpi Point) (bytes : List ℕ) (q : Point)
      → p.read_point bytes ≡ ok q
      → import_val p (some c) bytes ≡ ok c'
      → record c { x = q } ≡ c'
  unfolding import_val
  import_val-x c c' bytes q r e =
      ap (λ (x : Ret (Context Mpi Point)). or_old x c')
        (sym (ap (λ x. and_then x (λ q. ok (record c { x = q }))) r) ∙ e)

  -- the value for a node hides the key by the shared secret
  pub make_val-hides :
      (c c' : Context Mpi Point) (n : ℕ) (bytes : List ℕ) (rng rng' : Rng)
      → make_val p (some c) n rng ≡ ok (c', bytes, rng')
      → (x : Point) × (p.read_point bytes ≡ ok x) × (l.plus x (l.times c.priv c.peer) ≡ c.key)
  unfolding make_val
  make_val-hides c c' n bytes rng rng' e =
      let (r, e1, e2) = and_then-ok (compute_shared_point p c rng) _ (c', bytes, rng') e in
      let hidden : Point = or_old (p.add c.key (or_old (opp p r.0) p.zero_point)) c.x in
      let (b, e3, e4) = and_then-ok (p.write_point hidden n) _ (c', bytes, rng') e2 in
      let same : b ≡ bytes =
        ap (λ (x : Ret (Context Mpi Point × List ℕ × Rng)). (or_old x (c', bytes, rng')).1) e4 in
      let (q', o, inv) = opp-inverse r.0 in
      let x_eq : hidden ≡ l.plus c.key q' =
        ap (λ x. or_old (p.add c.key (or_old x p.zero_point)) c.x) o
        ∙ ap (λ x. or_old x c.x) (l.added c.key q') in
      (
        hidden,
        ap p.read_point (sym same) ∙ l.written hidden n b e3,
        ap (λ x. l.plus x (l.times c.priv c.peer)) x_eq
            ∙ (ap (l.plus (l.plus c.key q')) (sym (shared-times c rng r.1 r.0 e1)) ∙ inv c.key),
      )
