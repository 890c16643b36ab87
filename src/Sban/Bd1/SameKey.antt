-- ===== src/Sban/Bd1/SameKey.antt =====
-- BD1: the values of the nodes lead around the circle, and every node comes to the same key.
use lib_smoke.Base.{
  ℕ, ◌+◌, ◌/◌, ◌%◌, ◌≡◌, ◌≢◌, refl, ap, sym, ◌∙◌, subst, List, [], ◌∷◌, ◌++◌, some, ltb, ◌==◌,
  if◌then◌else◌, length, Bool-cases, inl, inr,
}
use lib_smoke.Sban.{Ret, ok, and_then, or_old, Polarssl, Arithmetic}
use lib_smoke.Sban.Bd2.Agreement.{Laws, and_then-ok}
use lib_smoke.Sban.Mka.Rounds.{past_guard}
use lib_smoke.Sban.Bd1.{Context, hide, gen_value, key_point, compute_key}
use lib_smoke.Sban.Bd1.Sum.{Module, Written, Chain, total, key_point-total}

module _ {Mpi Point Rng : Type 0} (p : Polarssl Mpi Point Rng) (q : Arithmetic Mpi Point)
    (l : Laws p) (g : Module p q l) where
  hide-times :
      (r : Mpi) (s : Point) (rng : Rng) (x : Point × Rng)
      → hide p q r s rng ≡ ok x
      → x.0 ≡ l.times r s
  unfolding hide
  hide-times r s rng x e = elim (Bool-cases (p.is_zero s)) [
    | inr n ↦ l.multiplied r s x.0 rng x.1 (sym (rw n refl) ∙ e)
    | inl z ↦
        let e' : and_then q.set_zero (λ x. ok (x, rng)) ≡ ok x = sym (rw z refl) ∙ e in
        let (o, e1, e2) = and_then-ok q.set_zero _ x e' in
        sym (ap (λ (y : Ret (Point × Rng)). (or_old y x).0) e2) ∙ sym (g.vanishing r s o z e1)
  ]

  -- If `bd1_gen_value` succeeds on the points of the two neighbours, then the value that it sends and
  -- keeps leads from the secret that the node shares with the one before it to the secret that it
  -- shares with the one after it, under what polarssl documents of its operations; the node keeps its
  -- own secret, and the point of the one before it.
  pub gen_value-links :
      (c c' : Context Mpi Point) (prev next : Point) (m n a b : ℕ) (zp zn rest bytes : List ℕ)
      (rng rng' : Rng)
      → p.write_point prev a ≡ ok zp
      → p.write_point next b ≡ ok zn
      → gen_value p q (some c) (zp ++ (zn ++ rest)) m n rng ≡ ok (c', bytes, rng')
      → (l.plus c'.x (l.times c.r prev) ≡ l.times c.r next)
        × (p.write_point c'.x n ≡ ok bytes)
        × (c'.z ≡ prev)
        × (c'.r ≡ c.r)
  unfolding gen_value
  gen_value-links c c' prev next m n a b zp zn rest bytes rng rng' wp wn e =
      let (t, a1, a2) = and_then-ok (q.read_next (zp ++ (zn ++ rest)) m) _ (c', bytes, rng') e in
      let (t', b1, b2) = and_then-ok (q.read_next t.1 m) _ (c', bytes, rng') a2 in
      let (d, c1, c2) = and_then-ok (q.sub t'.0 t.0) _ (c', bytes, rng') b2 in
      let (x, d1, d2) = and_then-ok (hide p q c.r d rng) _ (c', bytes, rng') c2 in
      let (w, f1, f2) = and_then-ok (p.write_point x.0 n) _ (c', bytes, rng') d2 in
      let same =
        ap (λ (y : Ret (Context Mpi Point × List ℕ × Rng)). or_old y (c', bytes, rng')) f2 in
      let (t_prev, t_rest) = g.next prev a m zp (zn ++ rest) t wp a1 in
      let (t_next, done) =
        g.next next b m zn rest t' wn (ap (λ (u : List ℕ). q.read_next u m) (sym t_rest) ∙ b1) in
      let x' : x.0 ≡ c'.x = ap (λ (y : Context Mpi Point × List ℕ × Rng). y.0.x) same in
      let times_d = hide-times c.r d rng x d1 in
      let apart : l.plus d prev ≡ next =
        ap (l.plus d) (sym t_prev) ∙ (g.subtracted t'.0 t.0 d c1 ∙ t_next) in
      (
        ap (λ s. l.plus s (l.times c.r prev)) (sym x' ∙ times_d)
            ∙ (sym (g.linear c.r d prev) ∙ ap (l.times c.r) apart),
        ap (λ s. p.write_point s n) (sym x')
            ∙ (f1 ∙ ap (λ (y : Context Mpi Point × List ℕ × Rng). ok y.1) same),
        sym (ap (λ (y : Context Mpi Point × List ℕ × Rng). y.0.z) same) ∙ t_prev,
        sym (ap (λ (y : Context Mpi Point × List ℕ × Rng). y.0.r) same),
      )

  total-append :
      (a b : Point) (ss ts : List Point)
      → total p q l g a (ss ++ b ∷ ts) ≡ l.plus (total p q l g a ss) (total p q l g b ts)
  total-append a b [] ts = refl
  total-append a b (s ∷ ss) ts =
      ap (l.plus a) (total-append s b ss ts)
      ∙ sym (g.associative a (total p q l g s ss) (total p q l g b ts))

  compute_key-point :
      (c : Context Mpi Point) (buf : List ℕ) (m n o len : ℕ) (bytes : List ℕ) (rng rng' : Rng)
      → compute_key p q (some c) buf m n o rng ≡ ok (len, bytes, rng')
      → (k : Point × Rng) × (key_point p q c buf m n rng ≡ ok k)
        × (p.write_binary (p.x_of k.0) (p.pbits / 8 + (if p.pbits % 8 == 0 then 0 else 1))
            ≡ ok bytes)
  unfolding compute_key
  compute_key-point c buf m n o len bytes rng rng' e =
      let size = p.pbits / 8 + (if p.pbits % 8 == 0 then 0 else 1) in
      let (k, a1, a2) = and_then-ok (key_point p q c buf m n rng) _ (len, bytes, rng') e in
      let (fits, b1) = past_guard (ltb o (p.mpi_size (p.x_of k.0))) _ _ (len, bytes, rng') a2 in
      let (w, c1, c2) = and_then-ok (p.write_binary (p.x_of k.0) size) _ (len, bytes, rng') b1 in
      (k, a1, c1 ∙ ap (λ (y : Ret (ℕ × List ℕ × Rng)). ok (or_old y (len, bytes, rng')).1) c2)

  -- Two nodes `c` and `d` of a circle of three or more come to the same key bytes in BD1, if each
  -- computes the key from the values of the nodes that follow it. The circle consists of the points that
  -- neighbours share: from `a`, which `c` shares with the node before it, over `ss` to `b`, which `d`
  -- shares with the node before it, and over `ts` back to `a`; a node's own value and the values in
  -- its buffer lead from each point of the circle to the next, from the node's own on.
  pub compute_key-agrees :
      (c d : Context Mpi Point) (a b : Point) (xs ys ss ts : List Point) (n m o len len' : ℕ)
      (buf buf' key key' : List ℕ) (r r' s s' : Rng)
      → n ≢ 2
      → length xs + 2 ≡ n
      → length ys + 2 ≡ n
      → Written p q l g xs buf
      → Written p q l g ys buf'
      → l.times c.r c.z ≡ a
      → l.times d.r d.z ≡ b
      → Chain p q l g a (c.x ∷ xs) (ss ++ b ∷ ts)
      → Chain p q l g b (d.x ∷ ys) (ts ++ a ∷ ss)
      → compute_key p q (some c) buf m n o r ≡ ok (len, key, r')
      → compute_key p q (some d) buf' m n o s ≡ ok (len', key', s')
      → key ≡ key'
  compute_key-agrees c d a b xs ys ss ts n m o len len' buf buf' key key' r r' s s' ne nx ny wx wy
        ca db hc hd kc kd =
      let (k, k1, k2) = compute_key-point c buf m n o len key r r' kc in
      let (j, j1, j2) = compute_key-point d buf' m n o len' key' s s' kd in
      let k_total =
        key_point-total p q l g c n m xs (ss ++ b ∷ ts) buf r k ne nx wx
          (subst (λ a. Chain p q l g a (c.x ∷ xs) (ss ++ b ∷ ts)) (sym ca) hc) k1 in
      let j_total =
        key_point-total p q l g d n m ys (ts ++ a ∷ ss) buf' s j ne ny wy
          (subst (λ b. Chain p q l g b (d.x ∷ ys) (ts ++ a ∷ ss)) (sym db) hd) j1 in
      let around : k.0 ≡ j.0 =
        k_total
        ∙ (ap (λ a. total p q l g a (ss ++ b ∷ ts)) ca
            ∙ (total-append a b ss ts
                ∙ (g.commutative (total p q l g a ss) (total p q l g b ts)
                    ∙ (sym (total-append b a ts ss)
                        ∙ (ap (λ b. total p q l g b (ts ++ a ∷ ss)) (sym db) ∙ sym j_total))))) in
      let size = p.pbits / 8 + (if p.pbits % 8 == 0 then 0 else 1) in
      ap (λ (y : Ret (List ℕ)). or_old y key)
        (sym k2 ∙ (ap (λ s. p.write_binary (p.x_of s) size) around ∙ j2))
