-- ===== src/Sban/Bd1/Sum.antt =====
-- The key of BD1 is the sum over the circle of the secrets that neighbours share.
use lib_smoke.Base.{
  ℕ, zero, suc, ◌+◌, ◌-◌, ◌≡◌, ◌≢◌, refl, ap, ap₂, sym, ◌∙◌, subst, arith, List, [], ◌∷◌, ◌++◌,
  Bool, true, false, ◌==◌, if◌then◌else◌, length,
}
use lib_smoke.Sban.{Ret, ok, or_old, Polarssl, Arithmetic}
use lib_smoke.Sban.Bd2.Agreement.{Laws, and_then-ok}
use lib_smoke.Sban.Bd1.{Context, first_term, add_values, key_point}

-- What polarssl documents of the operations that BD1 calls: points are a group in which numbers and
-- secrets multiply, and a point that was written is read from the front of a buffer.
pub record Module {Mpi Point Rng : Type 0} (p : Polarssl Mpi Point Rng) (q : Arithmetic Mpi Point)
    (l : Laws p) : Type 0 where
  pub multiple : ℕ → Point → Point
  pub associative : (a b c : Point) → l.plus (l.plus a b) c ≡ l.plus a (l.plus b c)
  pub commutative : (a b : Point) → l.plus a b ≡ l.plus b a
  pub once : (s : Point) → multiple 1 s ≡ s
  pub more : (k : ℕ) (s : Point) → multiple (suc (suc k)) s ≡ l.plus s (multiple (suc k) s)
  pub distributes :
      (k : ℕ) (a b : Point) → multiple k (l.plus a b) ≡ l.plus (multiple k a) (multiple k b)
  pub counted : (k : ℕ) (e : Mpi) (s : Point) → q.lset k ≡ ok e → l.times e s ≡ multiple k s
  pub scaled :
      (r e1 e2 : Mpi) (k : ℕ) (s : Point)
      → q.mul_int r k ≡ ok e1
      → q.mod_order e1 ≡ ok e2
      → (if p.is_null e2 then or_old q.set_zero p.zero_point else l.times e2 s)
        ≡ multiple k (l.times r s)
  pub subtracted : (a b s : Point) → q.sub a b ≡ ok s → l.plus s b ≡ a
  pub linear : (r : Mpi) (a b : Point) → l.times r (l.plus a b) ≡ l.plus (l.times r a) (l.times r b)
  pub vanishing : (r : Mpi) (s x : Point) → p.is_zero s ≡ true → q.set_zero ≡ ok x → l.times r s ≡ x
  pub next :
      (s : Point) (n m : ℕ) (bytes rest : List ℕ) (t : Point × List ℕ)
      → p.write_point s n ≡ ok bytes
      → q.read_next (bytes ++ rest) m ≡ ok t
      → (t.0 ≡ s) × (t.1 ≡ rest)

-- a test on the way to a result
pick :
    {Point Rng : Type 0} (b : Bool) (s t : Point) (rng : Rng) (m : Ret (Point × Rng))
    (h : Point × Rng)
    → (if b then ok (s, rng) else m) ≡ ok h
    → (m ≡ ok h → h.0 ≡ t)
    → h.0 ≡ (if b then s else t)
pick true s t rng m h e f = sym (ap (λ x. (or_old x h).0) e)
pick false s t rng m h e f = f e

not_two :
    {A : Type 0} (b : Bool) (r s : Ret A) (a : A)
    → b ≡ false
    → (if b then r else s) ≡ ok a
    → s ≡ ok a
not_two true r s a n e = absurd (cc n)
not_two false r s a n e = e

module _ {Mpi Point Rng : Type 0} (p : Polarssl Mpi Point Rng) (q : Arithmetic Mpi Point)
    (l : Laws p) (g : Module p q l) where
  -- a buffer that begins with these points
  abbrev pub Written : List Point → List ℕ → Type 0
  Written [] buf = Unit {0}
  Written (x ∷ xs) buf =
      (bytes : List ℕ) × (rest : List ℕ) × (n : ℕ) × (p.write_point x n ≡ ok bytes)
      × (buf ≡ bytes ++ rest)
      × Written xs rest

  -- each of the values `xs` leads from one of the points to the next, from `prev` on
  abbrev pub Chain : Point → List Point → List Point → Type 0
  Chain prev [] [] = Unit {0}
  Chain prev [] (s ∷ ss) = true ≡ false
  Chain prev (x ∷ xs) [] = true ≡ false
  Chain prev (x ∷ xs) (s ∷ ss) = (l.plus x prev ≡ s) × Chain s xs ss

  -- the sum of `s` and of `ss`
  abbrev pub total : Point → List Point → Point
  total s [] = s
  total s (t ∷ ts) = l.plus s (total t ts)

  combine :
      (k : ℕ) (prev x s : Point)
      → l.plus x prev ≡ s
      → l.plus (g.multiple (suc (suc k)) prev) (g.multiple (suc k) x)
        ≡ l.plus prev (g.multiple (suc k) s)
  combine k prev x s e =
      ap (λ a. l.plus a (g.multiple (suc k) x)) (g.more k prev)
      ∙ (g.associative prev (g.multiple (suc k) prev) (g.multiple (suc k) x)
          ∙ ap (l.plus prev) (
              g.commutative (g.multiple (suc k) prev) (g.multiple (suc k) x)
              ∙ (sym (g.distributes (suc k) x prev) ∙ ap (g.multiple (suc k)) e)))

  add_values-total :
      (rounds n i m : ℕ) (sum prev key : Point) (xs ss : List Point) (buf : List ℕ) (rng : Rng)
      (r : Point × Rng)
      → i + rounds ≡ n
      → length xs ≡ rounds
      → Written xs buf
      → Chain prev xs ss
      → key ≡ l.plus sum (g.multiple (suc rounds) prev)
      → add_values p q rounds n i m key buf rng ≡ ok r
      → r.0 ≡ l.plus sum (total prev ss)
  unfolding add_values
  add_values-total zero n i m sum prev key [] [] buf rng r c f w h k e =
      sym (ap (λ (x : Ret (Point × Rng)). (or_old x r).0) e) ∙ (k ∙ ap (l.plus sum) (g.once prev))
  add_values-total zero n i m sum prev key [] (s ∷ ss) buf rng r c f w h k e = absurd (cc h)
  add_values-total zero n i m sum prev key (x ∷ xs) ss buf rng r c f w h k e =
      absurd (omega (arith, f))
  add_values-total (suc rounds) n i m sum prev key [] ss buf rng r c f w h k e =
      absurd (omega (arith, f))
  add_values-total (suc rounds) n i m sum prev key (x ∷ xs) [] buf rng r c f w h k e = absurd (cc h)
  add_values-total (suc rounds) n i m sum prev key (x ∷ xs) (s ∷ ss) buf rng r c f w h k e =
      let (bytes, rest, size, wrote, at, ws) = w in
      let (e1, a1, a2) = and_then-ok (q.lset (n - i)) _ r e in
      let (t, b1, b2) = and_then-ok (q.read_next buf m) _ r a2 in
      let (u, c1, c2) = and_then-ok (p.mul e1 t.0 rng) _ r b2 in
      let (v, d1, d2) = and_then-ok (p.add key u.0) _ r c2 in
      let (key', f1, f2) = and_then-ok (p.copy v) _ r d2 in
      let (t_x, t_rest) =
        g.next x size m bytes rest t wrote (ap (λ b. q.read_next b m) (sym at) ∙ b1) in
      let left : n - i ≡ suc rounds = omega (arith, c) in
      let u_x : u.0 ≡ g.multiple (suc rounds) x =
        l.multiplied e1 t.0 u.0 rng u.1 c1
        ∙ (ap (l.times e1) t_x ∙ g.counted (suc rounds) e1 x (ap q.lset (sym left) ∙ a1)) in
      let key_eq : key' ≡ l.plus key u.0 =
        ap (λ a. or_old a key') (sym f1 ∙ l.copied v)
        ∙ ap (λ a. or_old a v) (sym d1 ∙ l.added key u.0) in
      let key'_sum : key' ≡ l.plus (l.plus sum prev) (g.multiple (suc rounds) s) =
        key_eq
        ∙ (ap₂ l.plus k u_x
            ∙ (g.associative sum (g.multiple (suc (suc rounds)) prev) (g.multiple (suc rounds) x)
                ∙ (ap (l.plus sum) (combine rounds prev x s h.0)
                    ∙ sym (g.associative sum prev (g.multiple (suc rounds) s))))) in
      add_values-total rounds n (i + 1) m (l.plus sum prev) s key' xs ss t.1 u.1 r
        (omega (arith, c)) (omega (arith, f)) (subst (Written xs) (sym t_rest) ws) h.1 key'_sum f2
      ∙ g.associative sum prev (total s ss)

  first_term-multiple :
      (c : Context Mpi Point) (n : ℕ) (rng : Rng) (h : Point × Rng)
      → first_term p q c n rng ≡ ok h
      → h.0 ≡ g.multiple n (l.times c.r c.z)
  unfolding first_term
  first_term-multiple c n rng h e =
      let (e1, a1, a2) = and_then-ok (q.mul_int c.r n) _ h e in
      let (e2, b1, b2) = and_then-ok (q.mod_order e1) _ h a2 in
      let term = g.scaled c.r e1 e2 n c.z a1 b1 in
      pick (p.is_null e2) (or_old q.set_zero p.zero_point) (l.times e2 c.z) rng (p.mul e2 c.z rng) h
        b2 (λ m. l.multiplied e2 c.z h.0 rng h.1 m)
      ∙ term

  -- The point of the key is the sum of the node's own secret with its predecessor and of all that the
  -- values lead to.
  pub key_point-total :
      (c : Context Mpi Point) (n m : ℕ) (xs ss : List Point) (buf : List ℕ) (rng : Rng)
      (k : Point × Rng)
      → n ≢ 2
      → length xs + 2 ≡ n
      → Written xs buf
      → Chain (l.times c.r c.z) (c.x ∷ xs) ss
      → key_point p q c buf m n rng ≡ ok k
      → k.0 ≡ total (l.times c.r c.z) ss
  unfolding key_point
  key_point-total c n m xs [] buf rng k ne size w ch e = absurd (cc ch)
  key_point-total c n m xs (s ∷ ss) buf rng k ne size w ch e =
      let more : (n == 2) ≡ false = ground (arith, ne) in
      let (h, a1, a2) = and_then-ok (first_term p q c n rng) _ k e in
      let a2' = not_two (n == 2) _ _ k more a2 in
      let (e1, b1, b2) = and_then-ok (q.lset (n - 1)) _ k a2' in
      let (u, c1, c2) = and_then-ok (p.mul e1 c.x h.1) _ k b2 in
      let (key, d1, d2) = and_then-ok (p.add h.0 u.0) _ k c2 in
      let prev = l.times c.r c.z in
      let full : n ≡ suc (suc (length xs)) = omega (arith, size) in
      let less : n - 1 ≡ suc (length xs) = omega (arith, size) in
      let u_x : u.0 ≡ g.multiple (suc (length xs)) c.x =
        l.multiplied e1 c.x u.0 h.1 u.1 c1
        ∙ g.counted (suc (length xs)) e1 c.x (ap q.lset (sym less) ∙ b1) in
      let h_prev : h.0 ≡ g.multiple (suc (suc (length xs))) prev =
        first_term-multiple c n rng h a1 ∙ ap (λ k. g.multiple k prev) full in
      let key_sum : key ≡ l.plus prev (g.multiple (suc (length xs)) s) =
        ap (λ a. or_old a key) (sym d1 ∙ l.added h.0 u.0)
        ∙ (ap₂ l.plus h_prev u_x ∙ combine (length xs) prev c.x s ch.0) in
      let two_less : n - 2 ≡ length xs = omega (arith, size) in
      add_values-total (length xs) n 2 m prev s key xs ss buf u.1 k (omega (arith, size)) refl w
        ch.1 key_sum (ap (λ r. add_values p q r n 2 m key buf u.1) (sym two_less) ∙ d2)
