-- ===== src/Sban/Gdh2/SameKey.antt =====
-- GDH2: every node makes of the last list the key that the last node has.
use lib_smoke.Base.{
  ℕ, ◌+◌, ◌-◌, ◌*◌, ◌<◌, ◌≡◌, ◌≢◌, refl, ap, ap₂, sym, ◌∙◌, subst, arith, List, [], ◌∷◌, map, some,
  Bool, true, false, not, ◌||◌, ltb, ◌==◌, if◌then◌else◌, length, get_or, drop, All,
}
use lib_smoke.Sban.{Ret, ok, or_old, Polarssl, Arithmetic}
use lib_smoke.Sban.Bd2.Agreement.{Laws, and_then-ok}
use lib_smoke.Sban.Mka.Rounds.{past_guard}
use lib_smoke.Sban.Util.{Curve}
use lib_smoke.Sban.Gdh2.{
  Context, multiply, add_second, term, last_val, make_val, write_key, compute_key, export_key,
}
use lib_smoke.Sban.Gdh2.Values.{
  Products, not_first, length-map, length-missing, prod, missing, Packed, times-broadcast,
  drop-Packed, multiply-Packed,
}

pub if_true :
    {A : Type 0} (b : Bool) (r s : Ret A) (a : A)
    → b ≡ true
    → (if b then r else s) ≡ ok a
    → r ≡ ok a
if_true true r s a y e = e
if_true false r s a y e = absurd (cc y)

module _ {Mpi Point Rng : Type 0} (p : Polarssl Mpi Point Rng) (q : Arithmetic Mpi Point)
    (k : Curve Mpi Point Rng) (l : Laws p) (g : Products p q k l) where
  -- what the last node sends and keeps
  last_val-Packed :
      (c c' : Context Mpi) (n m o : ℕ) (ps : List Mpi) (buf out : List ℕ) (rng rng' : Rng)
      → n ≢ 2
      → length ps + 1 ≡ n
      → Packed p q k l g (prod p q k l g ps ∷ missing p q k l g ps) buf
      → last_val p q k c n buf m o rng ≡ ok (c', out, rng')
      → (c'.key ≡ p.x_of (l.times c.priv (prod p q k l g ps)))
        × Packed p q k l g (map (l.times c.priv) (missing p q k l g ps)) out
  unfolding last_val add_second
  last_val-Packed c c' n m o ps buf out rng rng' ne size w e =
      let (bytes, rest, len, wrote, at, ws) = w in
      let two : (n == 2) ≡ false = ground (arith, ne) in
      let (t, a1, a2) = and_then-ok (q.read_next buf m) _ (c', out, rng') e in
      let (u, b1, b2) = and_then-ok (p.mul c.priv t.0 rng) _ (c', out, rng') a2 in
      let (r, c1, c2) =
        and_then-ok (multiply p q k (term p q k n - 1) 1 c.priv t.1 m o [] u.1) _ (c', out, rng')
          b2 in
      let (v, d1, d2) = and_then-ok (add_second p q k n c.priv o r.0 r.1) _ (c', out, rng') c2 in
      let same = ap (λ (x : Ret (Context Mpi × List ℕ × Rng)). or_old x (c', out, rng')) d2 in
      let (t_s, t_rest) =
        g.next (prod p q k l g ps) len m bytes rest t wrote
          (ap (λ b. q.read_next b m) (sym at) ∙ a1) in
      let u_s = l.multiplied c.priv t.0 u.0 rng u.1 b1 ∙ ap (l.times c.priv) t_s in
      let whole : term p q k n ≡ n = rw two refl in
      let rounds : length (missing p q k l g ps) ≡ term p q k n - 1 =
        omega (arith, whole, size, length-missing p q k l g ps) in
      let (sent, s1, s2) =
        multiply-Packed p q k l g (term p q k n - 1) 1 m o c.priv (missing p q k l g ps) t.1 [] u.1
          r (omega arith) rounds (subst (Packed p q k l g (missing p q k l g ps)) (sym t_rest) ws)
          c1 in
      let nothing : r ≡ v =
        ap (λ (x : Ret (List ℕ × Rng)). or_old x v)
          (not_first (n == 2) _ (ok (r.0, r.1)) v two d1) in
      let sent_out : sent ≡ out =
        sym s1
        ∙ (ap (λ (x : List ℕ × Rng). x.0) nothing
            ∙ ap (λ (x : Context Mpi × List ℕ × Rng). x.1) same) in
      (
        sym (ap (λ (x : Context Mpi × List ℕ × Rng). x.0.key) same) ∙ ap p.x_of u_s,
        subst (Packed p q k l g (map (l.times c.priv) (missing p q k l g ps))) sent_out s2,
      )

  -- the key that a node computes at its place
  compute_key-product :
      (c c' : Context Mpi) (index m o len : ℕ) (b : Mpi) (ps : List Mpi) (buf key : List ℕ)
      (rng rng' : Rng)
      → length ps + 1 ≡ c.n
      → get_or ps (c.n - index - 1) b ≡ c.priv
      → All (λ s. p.is_zero s ≡ false) (map (l.times b) (missing p q k l g ps))
      → Packed p q k l g (map (l.times b) (missing p q k l g ps)) buf
      → compute_key p q k (some c) index buf m o rng ≡ ok (c', len, key, rng')
      → write_key p q k (p.x_of (l.times b (prod p q k l g ps))) o ≡ ok (len, key)
  unfolding compute_key
  compute_key-product c c' index m o len b ps buf key rng rng' size mine z w e =
      let ss = map (l.times b) (missing p q k l g ps) in
      let d = c.n - index - 1 in
      let plen = 2 * k.prime_size + 2 in
      let (guard, e1) =
        past_guard (ltb index 1 || not (ltb index c.n)) _ _ (c', len, key, rng') e in
      let (t, a1, a2) =
        and_then-ok (q.read_next (drop (plen * d) buf) m) _ (c', len, key, rng') e1 in
      let (u, b1, b2) = and_then-ok (p.mul c.priv t.0 rng) _ (c', len, key, rng') a2 in
      let (v, c1, c2) = and_then-ok (write_key p q k (p.x_of u.0) o) _ (c', len, key, rng') b2 in
      let same =
        ap (λ (x : Ret (Context Mpi × ℕ × List ℕ × Rng)). or_old x (c', len, key, rng')) c2 in
      let inside : d < length ps = ground (arith, guard, size) in
      let there : d < length ss = omega (
        arith,
        inside,
        length-map (l.times b) (missing p q k l g ps),
        length-missing p q k l g ps,
      ) in
      let (bytes, rest, n, wrote, at) = drop-Packed p q k l g ss d p.zero_point buf there z w in
      let t_s =
        (g.next (get_or ss d p.zero_point) n m bytes rest t wrote
          (ap (λ b. q.read_next b m) (sym at) ∙ a1)).0 in
      let u_s : u.0 ≡ l.times b (prod p q k l g ps) =
        l.multiplied c.priv t.0 u.0 rng u.1 b1
        ∙ (ap₂ l.times (sym mine) t_s ∙ times-broadcast p q k l g ps b d b p.zero_point inside) in
      ap (λ s. write_key p q k (p.x_of s) o) (sym u_s)
      ∙ (c1
          ∙ ap₂ (λ (n : ℕ) (bytes : List ℕ). ok (n, bytes))
              (ap (λ (x : Context Mpi × ℕ × List ℕ × Rng). x.1) same)
              (ap (λ (x : Context Mpi × ℕ × List ℕ × Rng). x.2) same))

  -- Of three or more nodes, any node `d` but the last computes from the list that the last one, `c`, makes
  -- the key that the last one exports, with its length, if all calls succeed. The list that the last
  -- node gets is that of the secrets `ps` of the others, the latest first: the product of all, and the
  -- products that leave one out; `d` is at place `index`, and has the secret that is there. This is
  -- under what polarssl documents, and when no point in the list that is sent is the one at infinity.
  pub compute_key-exported :
      (c c' d d' : Context Mpi) (index m m' o o' len len' : ℕ) (ps : List Mpi)
      (buf out key key' : List ℕ) (r r' s s' : Rng)
      → c.n ≢ 2
      → length ps + 1 ≡ c.n
      → d.n ≡ c.n
      → get_or ps (d.n - index - 1) c.priv ≡ d.priv
      → Packed p q k l g (prod p q k l g ps ∷ missing p q k l g ps) buf
      → All (λ s. p.is_zero s ≡ false) (map (l.times c.priv) (missing p q k l g ps))
      → make_val p q k (some c) c.n buf m o r ≡ ok (c', out, r')
      → export_key p q k (some c') o' ≡ ok (len, key)
      → compute_key p q k (some d) index out m' o' s ≡ ok (d', len', key', s')
      → (len ≡ len') × (key ≡ key')
  unfolding make_val export_key
  compute_key-exported c c' d d' index m m' o o' len len' ps buf out key key' r r' s s' ne size
        same_n mine w z em ee ec =
      let itself : (c.n == c.n) ≡ true = ground arith in
      let el = if_true (c.n == c.n) _ _ (c', out, r') itself em in
      let (key_of, packed) = last_val-Packed c c' c.n m o ps buf out r r' ne size w el in
      let written =
        compute_key-product d d' index m' o' len' c.priv ps out key' s s' (size ∙ sym same_n) mine z
          packed ec in
      let both : (len, key) ≡ (len', key') =
        ap (λ x. or_old x (len, key))
          (sym ee ∙ (ap (λ x. write_key p q k x o') key_of ∙ written)) in
      (ap (λ (x : ℕ × List ℕ). x.0) both, ap (λ (x : ℕ × List ℕ). x.1) both)
