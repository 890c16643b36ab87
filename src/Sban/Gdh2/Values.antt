-- ===== src/Sban/Gdh2/Values.antt =====
-- What the lists of GDH2 hold: the product of all secrets so far, and the products that leave one out.
use lib_smoke.Base.{
  ℕ, zero, suc, ◌+◌, ◌-◌, ◌*◌, ◌≤◌, ◌<◌, ◌≡◌, refl, ap, sym, ◌∙◌, subst, arith, List, [], ◌∷◌, ◌++◌,
  map, append_assoc, append-nil, Bool, true, false, ◌==◌, if◌then◌else◌, length, get_or, drop, All,
}
use native.Mathlib.Nat.{mul-suc}
use lib_smoke.Sban.{Ret, ok, or_old, Polarssl, Arithmetic}
use lib_smoke.Sban.Bd2.Agreement.{Laws, and_then-ok}
use lib_smoke.Sban.Util.{Curve}
use lib_smoke.Sban.Gdh2.{multiply}

-- What polarssl documents, further: multiplications commute, and the bytes of a point other than the one
-- at infinity are ps long ps twice the prime and two more, and are read from the front of a buffer.
pub record Products {Mpi Point Rng : Type 0} (p : Polarssl Mpi Point Rng) (q : Arithmetic Mpi Point)
    (k : Curve Mpi Point Rng) (l : Laws p) : Type 0 where
  pub swaps : (a b : Mpi) (s : Point) → l.times a (l.times b s) ≡ l.times b (l.times a s)
  pub exact :
      (s : Point) (n : ℕ) (bytes : List ℕ)
      → p.is_zero s ≡ false
      → p.write_point s n ≡ ok bytes
      → length bytes ≡ 2 * k.prime_size + 2
  pub next :
      (s : Point) (n m : ℕ) (bytes rest : List ℕ) (t : Point × List ℕ)
      → p.write_point s n ≡ ok bytes
      → q.read_next (bytes ++ rest) m ≡ ok t
      → (t.0 ≡ s) × (t.1 ≡ rest)

pub not_first :
    {A : Type 0} (b : Bool) (r s : Ret A) (a : A)
    → b ≡ false
    → (if b then r else s) ≡ ok a
    → s ≡ ok a
not_first true r s a n e = absurd (cc n)
not_first false r s a n e = e

times_suc : (n d : ℕ) → n * suc d ≡ n + n * d
times_suc n d = mul-suc n d ∙ omega arith

drop_past :
    (bytes rest : List ℕ) (k j : ℕ) → j ≡ length bytes + k → drop j (bytes ++ rest) ≡ drop k rest
drop_past [] rest k j e = let same : j ≡ k = omega (arith, e) in ap (λ n. drop n rest) same
drop_past (b ∷ bytes) rest k zero e = absurd (omega (arith, e))
drop_past (b ∷ bytes) rest k (suc j) e = drop_past bytes rest k j (omega (arith, e))

get_or-map :
    {A B : Type 0} (f : A → B) (xs : List A) (d : ℕ) (a : A) (b : B)
    → d < length xs
    → get_or (map f xs) d b ≡ f (get_or xs d a)
get_or-map f [] d a b h = absurd (omega (arith, h))
get_or-map f (x ∷ xs) zero a b h = refl
get_or-map f (x ∷ xs) (suc d) a b h = get_or-map f xs d a b (omega (arith, h))

pub length-map : {A B : Type 0} (f : A → B) (xs : List A) → length (map f xs) ≡ length xs
length-map f [] = refl
length-map f (x ∷ xs) = ap suc (length-map f xs)

module _ {Mpi Point Rng : Type 0} (p : Polarssl Mpi Point Rng) (q : Arithmetic Mpi Point)
    (k : Curve Mpi Point Rng) (l : Laws p) (g : Products p q k l) where
  -- the generator times all the secrets
  abbrev pub prod : List Mpi → Point
  prod [] = k.generator
  prod (a ∷ ps) = l.times a (prod ps)

  -- the products that leave one of the secrets out, the first one first
  abbrev pub missing : List Mpi → List Point
  missing [] = []
  missing (a ∷ ps) = prod ps ∷ map (l.times a) (missing ps)

  -- a buffer that holds these points
  abbrev pub Packed : List Point → List ℕ → Type 0
  Packed [] buf = Unit {0}
  Packed (s ∷ ss) buf =
      (bytes : List ℕ) × (rest : List ℕ) × (n : ℕ) × (p.write_point s n ≡ ok bytes)
      × (buf ≡ bytes ++ rest)
      × Packed ss rest

  pub length-missing : (ps : List Mpi) → length (missing ps) ≡ length ps
  length-missing [] = refl
  length-missing (a ∷ ps) = ap suc (length-map (l.times a) (missing ps) ∙ length-missing ps)

  -- a secret times the product without it
  pub times-missing :
      (ps : List Mpi) (d : ℕ) (a : Mpi) (s : Point)
      → d < length ps
      → l.times (get_or ps d a) (get_or (missing ps) d s) ≡ prod ps
  times-missing [] d a s h = absurd (omega (arith, h))
  times-missing (b ∷ ps) zero a s h = refl
  times-missing (b ∷ ps) (suc d) a s h =
      let inside : d < length (missing ps) = omega (arith, h, length-missing ps) in
      ap (l.times (get_or ps d a)) (get_or-map (l.times b) (missing ps) d s s inside)
      ∙ (g.swaps (get_or ps d a) b (get_or (missing ps) d s)
          ∙ ap (l.times b) (times-missing ps d a s (omega (arith, h))))

  -- what a node finds at its place in the last list
  pub times-broadcast :
      (ps : List Mpi) (b : Mpi) (d : ℕ) (a : Mpi) (s : Point)
      → d < length ps
      → l.times (get_or ps d a) (get_or (map (l.times b) (missing ps)) d s) ≡ l.times b (prod ps)
  times-broadcast ps b d a s h = times-missing (b ∷ ps) (suc d) a s (omega (arith, h))

  -- the record of one of the points
  pub drop-Packed :
      (ss : List Point) (d : ℕ) (s : Point) (buf : List ℕ)
      → d < length ss
      → All (λ t. p.is_zero t ≡ false) ss
      → Packed ss buf
      → (bytes : List ℕ) × (rest : List ℕ) × (n : ℕ) × (p.write_point (get_or ss d s) n ≡ ok bytes)
        × (drop ((2 * k.prime_size + 2) * d) buf ≡ bytes ++ rest)
  drop-Packed [] d s buf h z w = absurd (omega (arith, h))
  drop-Packed (t ∷ ss) zero s buf h z w =
      let (bytes, rest, n, wrote, at, ws) = w in
      (
        bytes,
        rest,
        n,
        wrote,
        let start : (2 * k.prime_size + 2) * 0 ≡ 0 = omega arith in ap (λ n. drop n buf) start ∙ at,
      )
  drop-Packed (t ∷ ss) (suc d) s buf h z w =
      let (bytes, rest, n, wrote, at, ws) = w in
      let (bytes', rest', n', wrote', at') = drop-Packed ss d s rest (omega (arith, h)) z.1 ws in
      let size = 2 * k.prime_size + 2 in
      let len = g.exact t n bytes z.0 wrote in
      (
        bytes',
        rest',
        n',
        wrote',
        ap (drop (size * suc d)) at
            ∙ (drop_past bytes rest (size * d) (size * suc d)
                  (times_suc size d ∙ ap (λ n. n + size * d) (sym len))
                ∙ at'),
      )

  -- the rounds of `gdh2_make_val` after the first
  pub multiply-Packed :
      (rounds i m o : ℕ) (priv : Mpi) (ss : List Point) (buf out : List ℕ) (rng : Rng)
      (r : List ℕ × Rng)
      → 1 ≤ i
      → length ss ≡ rounds
      → Packed ss buf
      → multiply p q k rounds i priv buf m o out rng ≡ ok r
      → (bytes : List ℕ) × (r.0 ≡ out ++ bytes) × Packed (map (l.times priv) ss) bytes
  unfolding multiply
  multiply-Packed zero i m o priv [] buf out rng r h f w e =
      ([], sym (ap (λ (x : Ret (List ℕ × Rng)). (or_old x r).0) e) ∙ sym (append-nil out), tt)
  multiply-Packed zero i m o priv (s ∷ ss) buf out rng r h f w e = absurd (omega (arith, f))
  multiply-Packed (suc rounds) i m o priv [] buf out rng r h f w e = absurd (omega (arith, f))
  multiply-Packed (suc rounds) i m o priv (s ∷ ss) buf out rng r h f w e =
      let (bytes, rest, size, wrote, at, ws) = w in
      let (t, a1, a2) = and_then-ok (q.read_next buf m) _ r e in
      let (u, b1, b2) = and_then-ok (p.mul priv t.0 rng) _ r a2 in
      let (sent, c1, c2) = and_then-ok (p.write_point u.0 (o - length out)) _ r b2 in
      let (t_s, t_rest) =
        g.next s size m bytes rest t wrote (ap (λ b. q.read_next b m) (sym at) ∙ a1) in
      let later : (i == 0) ≡ false = ground (arith, h) in
      let c2' = not_first (i == 0) _ _ r later c2 in
      let (more, d1, d2) =
        multiply-Packed rounds (i + 1) m o priv ss t.1 (out ++ sent) u.1 r (omega arith)
          (omega (arith, f)) (subst (Packed ss) (sym t_rest) ws) c2' in
      let u_s : u.0 ≡ l.times priv s =
        l.multiplied priv t.0 u.0 rng u.1 b1 ∙ ap (l.times priv) t_s in
      (
        sent ++ more,
        d1 ∙ append_assoc out sent more,
        (
          sent,
          more,
          o - length out,
          ap (λ s. p.write_point s (o - length out)) (sym u_s) ∙ c1,
          refl,
          d2,
        ),
      )
