-- ===== src/Sban/Toy/Circle.antt =====
-- The group of two elements as BD1 sees it, and a circle of three nodes.
use lib_smoke.Base.{
  ℕ, zero, suc, ◌≡◌, refl, ap, sym, ◌∙◌, List, ◌++◌, Bool, true, false, not, if◌then◌else◌, drop,
}
use lib_smoke.Sban.{Ret, ok, and_then, or_old}
use lib_smoke.Sban.Bd1.Sum.{Module}
use lib_smoke.Sban.Toy.{
  plus, times, odd, toy, toy_arithmetic, toy-Laws, plus_twice, write_bit, read_first, bit_written,
  bit_trailing,
}

unfoldable multiple : ℕ → Bool → Bool
multiple k s = times (odd k) s

plus_assoc : (a b c : Bool) → plus (plus a b) c ≡ plus a (plus b c)
unfolding plus
plus_assoc false b c = refl
plus_assoc true false c = refl
plus_assoc true true false = refl
plus_assoc true true true = refl

plus_comm : (a b : Bool) → plus a b ≡ plus b a
unfolding plus
plus_comm false false = refl
plus_comm false true = refl
plus_comm true false = refl
plus_comm true true = refl

times_plus : (r a b : Bool) → times r (plus a b) ≡ plus (times r a) (times r b)
unfolding plus times
times_plus false a b = refl
times_plus true a b = refl

times_more : (o s : Bool) → times (not (not o)) s ≡ plus s (times (not o) s)
unfolding plus times
times_more false false = refl
times_more false true = refl
times_more true false = refl
times_more true true = refl

scaled_bit :
    (o r s : Bool) → (if not (times o r) then false else times (times o r) s) ≡ times o (times r s)
unfolding times
scaled_bit false r s = refl
scaled_bit true false s = refl
scaled_bit true true s = refl

vanishing_bit : (r s : Bool) → not s ≡ true → times r s ≡ false
unfolding times
vanishing_bit false s e = refl
vanishing_bit true false e = refl
vanishing_bit true true e = sym e

bit_size :
    (s : Bool) (n : ℕ) (bytes rest : List ℕ)
    → write_bit s n ≡ ok bytes
    → drop 1 (bytes ++ rest) ≡ rest
bit_size s zero bytes rest e = absurd (cc e)
bit_size s (suc n) bytes rest e = ap (λ (x : Ret (List ℕ)). drop 1 (or_old x bytes ++ rest)) (sym e)

bit_first :
    (s : Bool) (n m : ℕ) (bytes rest : List ℕ) (t : Bool × List ℕ)
    → write_bit s n ≡ ok bytes
    → read_first (bytes ++ rest) m ≡ ok t
    → (t.0 ≡ s) × (t.1 ≡ rest)
bit_first s n m bytes rest t w r =
    let e = bit_trailing s bytes rest (bit_written s n bytes w) in
    let first : read_first (bytes ++ rest) m ≡ ok (s, drop 1 (bytes ++ rest)) =
      ap (λ (x : Ret Bool). and_then x λ s. ok (s, drop 1 (bytes ++ rest))) e in
    let same = ap (λ (x : Ret (Bool × List ℕ)). or_old x t) (sym first ∙ r) in
    (
      sym (ap (λ (x : Bool × List ℕ). x.0) same),
      sym (ap (λ (x : Bool × List ℕ). x.1) same) ∙ bit_size s n bytes rest w,
    )

counted_bit : (k : ℕ) (e s : Bool) → toy_arithmetic.lset k ≡ ok e → times e s ≡ multiple k s
unfolding multiple
counted_bit k e s h = ap (λ (x : Ret Bool). times (or_old x e) s) (sym h)

scaled_bits :
    (r e1 e2 : Bool) (k : ℕ) (s : Bool)
    → toy_arithmetic.mul_int r k ≡ ok e1
    → toy_arithmetic.mod_order e1 ≡ ok e2
    → (if not e2 then false else times e2 s) ≡ multiple k (times r s)
unfolding multiple
scaled_bits r e1 e2 k s h h' =
    let same : times (odd k) r ≡ e2 =
      ap (λ (x : Ret Bool). or_old x e1) h ∙ ap (λ (x : Ret Bool). or_old x e2) h' in
    ap (λ e. if not e then false else times e s) (sym same) ∙ scaled_bit (odd k) r s

subtracted_bit : (a b s : Bool) → toy_arithmetic.sub a b ≡ ok s → plus s b ≡ a
subtracted_bit a b s h = ap (λ (x : Ret Bool). plus (or_old x s) b) (sym h) ∙ plus_twice a b

pub toy-Module : Module toy toy_arithmetic toy-Laws
unfolding multiple odd toy-Laws times
toy-Module = record {
  multiple = multiple;
  associative = plus_assoc;
  commutative = plus_comm;
  once = λ s. refl;
  more = λ k s. times_more (odd k) s;
  distributes = λ k a b. times_plus (odd k) a b;
  counted = λ k e s h. counted_bit k e s h;
  scaled = λ r e1 e2 k s h h'. scaled_bits r e1 e2 k s h h';
  subtracted = λ a b s h. subtracted_bit a b s h;
  linear = times_plus;
  vanishing = λ r s x z h. vanishing_bit r s z ∙ ap (λ (y : Ret Bool). or_old y x) h;
  next = λ s n m bytes rest t w r. bit_first s n m bytes rest t w r;
}
