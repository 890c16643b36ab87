-- ===== src/Sban/Mka/SameKey.antt =====
-- MKA between two parties: both come to the same key.
use lib_smoke.Base.{
  ℕ, ◌+◌, ◌-◌, ◌/◌, ◌%◌, ◌≡◌, refl, ap, ap₂, sym, ◌∙◌, subst, arith, List, ◌++◌, some, ltb, ◌==◌,
  if◌then◌else◌,
}
use lib_smoke.Sban.{Ret, ok, or_old, Polarssl, Arithmetic}
use lib_smoke.Sban.Bd2.Agreement.{Laws, and_then-ok}
use lib_smoke.Sban.Mka.{
  Context, set_part, broad_point, make_broadval, sum_points, remove_own, acc_broadval, compute_key,
}
use lib_smoke.Sban.Mka.Rounds.{past_guard, set_part-rounds}

-- What polarssl documents of the further operations: `set_zero` makes the neutral element, the
-- inverse of one is one, and a point that was written is read from the front of a buffer.
pub record Further {Mpi Point Rng : Type 0} (p : Polarssl Mpi Point Rng) (q : Arithmetic Mpi Point)
    (l : Laws p) : Type 0 where
  pub neutral : (s : Point) → l.plus (or_old q.set_zero p.zero_point) s ≡ s
  pub unit : (u e : Mpi) (s : Point) → q.lset 1 ≡ ok u → q.inv_mod u ≡ ok e → l.times e s ≡ s
  pub next :
      (s : Point) (n m : ℕ) (bytes rest : List ℕ) (t : Point × List ℕ)
      → p.write_point s n ≡ ok bytes
      → q.read_next (bytes ++ rest) m ≡ ok t
      → t.0 ≡ s

pub same_ok : {A : Type 0} (a b : A) → ok a ≡ ok b → a ≡ b
same_ok a b e = ap (λ x. or_old x a) e

module _ {Mpi Point Rng : Type 0} (p : Polarssl Mpi Point Rng) (q : Arithmetic Mpi Point)
    (l : Laws p) (f : Further p q l) where
  set_part-times :
      (c c' : Context Mpi Point) (n : ℕ) (rng rng' : Rng)
      → set_part p q (some c) n rng ≡ ok (c', rng')
      → c'.k ≡ l.times c'.a l.base
  unfolding set_part
  set_part-times c c' n rng rng' e =
      let (ge, e1) = past_guard (ltb n 2) _ _ (c', rng') e in
      let (g, e2, e3) = and_then-ok (p.gen_keypair rng) _ (c', rng') e1 in
      let same = ap (λ (x : Ret (Context Mpi Point × Rng)). (or_old x (c', rng')).0) e3 in
      subst (λ (c : Context Mpi Point). c.k ≡ l.times c.a l.base) same
        (l.generated rng g.2 g.0 g.1 e2)

  -- the first broadcast is the point of the context
  pub make_broadval-first :
      (c c' : Context Mpi Point) (n : ℕ) (bytes : List ℕ) (rng rng' : Rng)
      → c.r ≡ 0
      → make_broadval p q (some c) n rng ≡ ok (c', bytes, rng')
      → (p.write_point c'.k n ≡ ok bytes) × (record c { k = c.k } ≡ c')
  unfolding make_broadval broad_point
  make_broadval-first c c' n bytes rng rng' first e =
      let (within, e1) = past_guard (ltb c.n (c.r + 2)) _ _ (c', bytes, rng') e in
      let (m, e2, e3) = and_then-ok (broad_point p q c rng) _ (c', bytes, rng') e1 in
      let start : broad_point p q c rng ≡ ok (c.k, rng) = rw first refl in
      let own : m.0 ≡ c.k = ap (λ (x : Ret (Point × Rng)). (or_old x m).0) (sym e2 ∙ start) in
      let (b, e4, e5) = and_then-ok (p.write_point m.0 n) _ (c', bytes, rng') e3 in
      let same =
        ap (λ (x : Ret (Context Mpi Point × List ℕ × Rng)). or_old x (c', bytes, rng')) e5 in
      let sent = ap (λ (x : Context Mpi Point × List ℕ × Rng). x.1) same in
      let ctx = ap (λ (x : Context Mpi Point × List ℕ × Rng). x.0) same in
      (
        ap (λ (c : Context Mpi Point). p.write_point c.k n) (sym ctx) ∙ (e4 ∙ ap ok sent),
        ap (λ (k : Point). record c { k = k }) (sym own) ∙ ctx,
      )

  -- the sum of one point
  sum_points-one :
      (s sum : Point) (n m : ℕ) (bytes rest : List ℕ)
      → p.write_point s m ≡ ok bytes
      → sum_points p q 1 n (or_old q.set_zero p.zero_point) (bytes ++ rest) ≡ ok sum
      → sum ≡ s
  unfolding sum_points
  sum_points-one s sum n m bytes rest sent e =
      let start = or_old q.set_zero p.zero_point in
      let (t, r1, r2) = and_then-ok (q.read_next (bytes ++ rest) n) _ sum e in
      let (a, r3, r4) = and_then-ok (p.add start t.0) _ sum r2 in
      let (b, r5, r6) = and_then-ok (p.copy a) _ sum r4 in
      let sum_b : sum ≡ b = same_ok sum b (sym r6) in
      let b_a : b ≡ a = same_ok b a (sym r5 ∙ l.copied a) in
      let a_plus : a ≡ l.plus start t.0 = same_ok a _ (sym r3 ∙ l.added start t.0) in
      sum_b ∙ (b_a ∙ (a_plus ∙ (f.neutral t.0 ∙ f.next s m n bytes rest t sent r1)))

  remove_own-first :
      (c : Context Mpi Point) (sum : Point) (rng : Rng) (t : Point × Rng)
      → c.r ≡ 0
      → remove_own p q c sum rng ≡ ok t
      → t.0 ≡ sum
  unfolding remove_own
  remove_own-first c sum rng t first e =
      let kept : remove_own p q c sum rng ≡ ok (sum, rng) = rw (first, l.copied sum) refl in
      ap (λ (x : Point × Rng). x.0) (same_ok t (sum, rng) (sym e ∙ kept))

  -- in the only round of two parties, the other's point becomes the context's
  acc_broadval-other :
      (c c' : Context Mpi Point) (s : Point) (n m : ℕ) (bytes rest : List ℕ) (rng rng' : Rng)
      → c.n ≡ 2
      → c.r ≡ 0
      → p.write_point s m ≡ ok bytes
      → acc_broadval p q (some c) (bytes ++ rest) n rng ≡ ok (c', rng')
      → (c'.k ≡ s) × (c'.a ≡ c.a)
  unfolding acc_broadval
  acc_broadval-other c c' s n m bytes rest rng rng' two first sent e =
      let (within, e1) = past_guard (ltb c.n (c.r + 2)) _ _ (c', rng') e in
      let start = or_old q.set_zero p.zero_point in
      let (sum, e2, e3) =
        and_then-ok (sum_points p q (c.n - 1) n start (bytes ++ rest)) _ (c', rng') e1 in
      let one : c.n - 1 ≡ 1 = omega (arith, two) in
      let sum_s =
        sum_points-one s sum n m bytes rest sent
          (ap (λ k. sum_points p q k n start (bytes ++ rest)) (sym one) ∙ e2) in
      let (t, e4, e5) = and_then-ok (remove_own p q c sum rng) _ (c', rng') e3 in
      let t_sum = remove_own-first c sum rng t first e4 in
      let (u, e6, e7) = and_then-ok (q.lset (c.r + 1)) _ (c', rng') e5 in
      let (i, e8, e9) = and_then-ok (q.inv_mod u) _ (c', rng') e7 in
      let (m, e10, e11) = and_then-ok (p.mul i t.0 t.1) _ (c', rng') e9 in
      let same = ap (λ (x : Ret (Context Mpi Point × Rng)). (or_old x (c', rng')).0) e11 in
      let unit = f.unit u i t.0 (ap (λ r. q.lset (r + 1)) (sym first) ∙ e6) e8 in
      let times_m = l.multiplied i t.0 m.0 t.1 m.1 e10 in
      (
        sym (ap (λ (c : Context Mpi Point). c.k) same) ∙ (times_m ∙ (unit ∙ (t_sum ∙ sum_s))),
        sym (ap (λ (c : Context Mpi Point). c.a) same),
      )

  -- the key is made of the point times the secret
  compute_key-times :
      (c c' : Context Mpi Point) (n olen : ℕ) (bytes : List ℕ) (rng rng' : Rng)
      → compute_key p q (some c) n rng ≡ ok (c', olen, bytes, rng')
      → p.write_binary
          (p.x_of (l.times c.a c.k))
          (p.pbits / 8 + (if p.pbits % 8 == 0 then 0 else 1))
        ≡ ok bytes
  unfolding compute_key
  compute_key-times c c' n olen bytes rng rng' e =
      let (within, e1) = past_guard (ltb c.n (c.r + 2)) _ _ (c', olen, bytes, rng') e in
      let (last, e2) = past_guard (ltb (c.r + 2) c.n) _ _ (c', olen, bytes, rng') e1 in
      let (m, e3, e4) = and_then-ok (p.mul c.a c.k rng) _ (c', olen, bytes, rng') e2 in
      let (fits, e5) =
        past_guard (ltb n (p.mpi_size (p.x_of m.0))) _ _ (c', olen, bytes, rng') e4 in
      let len = p.pbits / 8 + (if p.pbits % 8 == 0 then 0 else 1) in
      let (b, e6, e7) =
        and_then-ok (p.write_binary (p.x_of m.0) len) _ (c', olen, bytes, rng') e5 in
      let times_m = l.multiplied c.a c.k m.0 rng m.1 e3 in
      let b_bytes = ap (λ (x : Context Mpi Point × ℕ × List ℕ × Rng). x.2) (same_ok _ _ e7) in
      ap (λ s. p.write_binary (p.x_of s) len) (sym times_m) ∙ (e6 ∙ ap ok b_bytes)

  -- Two parties `c` and `d` that take part in MKA, broadcast their first value, take in the value of the
  -- other, whatever follows it in the buffer, and compute the key, come to the same bytes, if all these
  -- calls succeed. This is under what polarssl documents: the operations are those of a group, memory
  -- does not run out, and a point that was written is read back.
  pub compute_key-same :
      (c c1 c2 c3 c4 d d1 d2 d3 d4 : Context Mpi Point) (n n' len len' : ℕ)
      (zc zd rest rest' key key' : List ℕ) (r0 r1 r2 r3 r4 s0 s1 s2 s3 s4 : Rng)
      → set_part p q (some c) 2 r0 ≡ ok (c1, r1)
      → set_part p q (some d) 2 s0 ≡ ok (d1, s1)
      → make_broadval p q (some c1) n r1 ≡ ok (c2, zc, r2)
      → make_broadval p q (some d1) n s1 ≡ ok (d2, zd, s2)
      → acc_broadval p q (some c2) (zd ++ rest) n' r2 ≡ ok (c3, r3)
      → acc_broadval p q (some d2) (zc ++ rest') n' s2 ≡ ok (d3, s3)
      → compute_key p q (some c3) n r3 ≡ ok (c4, len, key, r4)
      → compute_key p q (some d3) n s3 ≡ ok (d4, len', key', s4)
      → key ≡ key'
  compute_key-same c c1 c2 c3 c4 d d1 d2 d3 d4 n n' len len' zc zd rest rest' key key' r0 r1 r2 r3
        r4 s0 s1 s2 s3 s4 ec ed bc bd ac ad kc kd =
      let (c1_n, c1_r) = set_part-rounds p q c c1 2 r0 r1 ec in
      let (d1_n, d1_r) = set_part-rounds p q d d1 2 s0 s1 ed in
      let c1_k = set_part-times c c1 2 r0 r1 ec in
      let d1_k = set_part-times d d1 2 s0 s1 ed in
      let (zc_of, c2_eq) = make_broadval-first c1 c2 n zc r1 r2 c1_r bc in
      let (zd_of, d2_eq) = make_broadval-first d1 d2 n zd s1 s2 d1_r bd in
      let (c3_k, c3_a) =
        acc_broadval-other c2 c3 d2.k n' n zd rest r2 r3
          (sym (ap (λ (c : Context Mpi Point). c.n) c2_eq) ∙ c1_n)
          (sym (ap (λ (c : Context Mpi Point). c.r) c2_eq) ∙ c1_r) zd_of ac in
      let (d3_k, d3_a) =
        acc_broadval-other d2 d3 c2.k n' n zc rest' s2 s3
          (sym (ap (λ (c : Context Mpi Point). c.n) d2_eq) ∙ d1_n)
          (sym (ap (λ (c : Context Mpi Point). c.r) d2_eq) ∙ d1_r) zc_of ad in
      let c2_k : c2.k ≡ l.times c2.a l.base =
        subst (λ (c : Context Mpi Point). c.k ≡ l.times c.a l.base) c2_eq c1_k in
      let d2_k : d2.k ≡ l.times d2.a l.base =
        subst (λ (c : Context Mpi Point). c.k ≡ l.times c.a l.base) d2_eq d1_k in
      let shared : l.times c3.a c3.k ≡ l.times d3.a d3.k =
        ap₂ l.times c3_a (c3_k ∙ d2_k)
        ∙ (l.commutes c2.a d2.a ∙ sym (ap₂ l.times d3_a (d3_k ∙ c2_k))) in
      let size = p.pbits / 8 + (if p.pbits % 8 == 0 then 0 else 1) in
      same_ok key key' (
        sym (compute_key-times c3 c4 n len key r3 r4 kc)
        ∙ (ap (λ s. p.write_binary (p.x_of s) size) shared
            ∙ compute_key-times d3 d4 n len' key' s3 s4 kd))
