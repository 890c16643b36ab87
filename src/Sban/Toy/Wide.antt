-- ===== src/Sban/Toy/Wide.antt =====
-- The group of two elements with points of two bytes, for GDH2.
use lib_smoke.Base.{
  ℕ, ◌≡◌, refl, ap, subst, sym, ◌∙◌, List, [], ◌∷◌, ◌++◌, Bool, true, false, not, if◌then◌else◌,
  length, drop,
}
use lib_smoke.Sban.{Ret, ok, and_then, or_old, Polarssl, Arithmetic}
use lib_smoke.Sban.Bd2.Agreement.{Laws}
use lib_smoke.Sban.Util.{Curve}
use lib_smoke.Sban.Gdh2.Values.{Products}
use lib_smoke.Sban.Toy.{
  plus, times, toy, toy_arithmetic, read_bit, times_comm, toy_generated, plus_twice,
}

abbrev write_wide : Bool → ℕ → Ret (List ℕ)
write_wide s n = ok ((if s then 4 else 0) ∷ 0 ∷ [])

abbrev read_wide : List ℕ → ℕ → Ret (Bool × List ℕ)
read_wide bytes n = and_then (read_bit bytes) λ s. ok (s, drop 2 bytes)

abbrev pub wide : Polarssl Bool Bool ℕ
wide = record toy { write_point = write_wide }

abbrev pub wide_arithmetic : Arithmetic Bool Bool
wide_arithmetic = record toy_arithmetic { read_next = read_wide }

abbrev pub wide_curve : Curve Bool Bool ℕ
wide_curve = record {
  generator = true;
  prime_size = 0;
  nbits = 1;
  random = λ r n. ok (1 ∷ [], r);
  read_binary = λ bytes. ok true;
  shift_r = λ d n. ok d;
  below_one = λ d. not d;
  below_order = λ d. true;
}

read_two : (s : Bool) (rest : List ℕ) → read_bit ((if s then 4 else 0) ∷ rest) ≡ ok s
read_two false rest = refl
read_two true rest = refl

pub wide_written :
    (s : Bool) (n : ℕ) (bytes : List ℕ) → write_wide s n ≡ ok bytes → read_bit bytes ≡ ok s
wide_written s n bytes e =
    subst (λ bs. read_bit bs ≡ ok s) (ap (λ (x : Ret (List ℕ)). or_old x bytes) e)
      (read_two s (0 ∷ []))

unfoldable pub wide-Laws : Laws wide
wide-Laws = record {
  times = times;
  plus = plus;
  base = true;
  negate = λ y. y;
  generated = λ r r' d q e. toy_generated d q r r' e;
  multiplied = λ d q s r r' e. cc e;
  added = λ a b. refl;
  copied = λ q. refl;
  negated = λ y. refl;
  self_inverse = λ k q e. plus_twice k q;
  inverse = λ k q e. plus_twice k q;
  commutes = times_comm;
  written = wide_written;
}

times_swap : (a b s : Bool) → times a (times b s) ≡ times b (times a s)
unfolding times
times_swap false false s = refl
times_swap false true s = refl
times_swap true false s = refl
times_swap true true s = refl

wide_exact : (s : Bool) (n : ℕ) (bytes : List ℕ) → write_wide s n ≡ ok bytes → length bytes ≡ 2
wide_exact s n bytes e = ap (λ (x : Ret (List ℕ)). length (or_old x bytes)) (sym e)

wide_next :
    (s : Bool) (n m : ℕ) (bytes rest : List ℕ) (t : Bool × List ℕ)
    → write_wide s n ≡ ok bytes
    → read_wide (bytes ++ rest) m ≡ ok t
    → (t.0 ≡ s) × (t.1 ≡ rest)
wide_next s n m bytes rest t w r =
    let r' : read_wide ((if s then 4 else 0) ∷ 0 ∷ rest) m ≡ ok t =
      ap (λ (x : Ret (List ℕ)). read_wide (or_old x bytes ++ rest) m) w ∙ r in
    let first : read_wide ((if s then 4 else 0) ∷ 0 ∷ rest) m ≡ ok (s, rest) =
      ap (λ (x : Ret Bool). and_then x λ s. ok (s, rest)) (read_two s (0 ∷ rest)) in
    let same = ap (λ (x : Ret (Bool × List ℕ)). or_old x t) (sym first ∙ r') in
    (sym (ap (λ (x : Bool × List ℕ). x.0) same), sym (ap (λ (x : Bool × List ℕ). x.1) same))

pub wide-Products : Products wide wide_arithmetic wide_curve wide-Laws
unfolding wide-Laws
wide-Products = record {
  swaps = times_swap;
  exact = λ s n bytes z e. wide_exact s n bytes e;
  next = λ s n m bytes rest t w r. wide_next s n m bytes rest t w r;
}
