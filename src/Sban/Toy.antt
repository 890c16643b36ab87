-- ===== src/Sban/Toy.antt =====
-- polarssl over the group of two elements: what the tests run on.
pub mod Circle
pub mod Wide
use lib_smoke.Base.{
  ℕ, zero, suc, ◌%◌, drop, sym, ◌∙◌, ◌≤◌, ◌≡◌, refl, ap, subst, arith, List, [], ◌∷◌, ◌++◌, Bool,
  true, false, not, ◌==◌, if◌then◌else◌, length,
}
use lib_smoke.Sban.{
  Arithmetic, Ret, ok, fail, and_then, or_old, bad_input_data, buffer_too_short, Polarssl,
}
use lib_smoke.Sban.Bd2.Agreement.{Laws}
use lib_smoke.Sban.Bd2.Wire.{Wire}
use lib_smoke.Sban.Mka.SameKey.{Further}

unfoldable pub plus : Bool → Bool → Bool
plus false q = q
plus true q = not q

unfoldable pub times : Bool → Bool → Bool
times false q = false
times true q = q

abbrev pub read_bit : List ℕ → Ret Bool
read_bit [] = fail bad_input_data
read_bit (b ∷ bs) = ok (b == 4)

abbrev pub write_bit : Bool → ℕ → Ret (List ℕ)
write_bit q zero = fail buffer_too_short
write_bit q (suc n) = ok ((if q then 4 else 0) ∷ [])

abbrev pub toy : Polarssl Bool Bool ℕ
toy = record {
  use_known_dp = λ id. ok tt;
  gen_keypair = λ r. ok (true, true, r);
  mul = λ d q r. ok (times d q, r);
  add = λ a b. ok (plus a b);
  copy = λ q. ok q;
  check_pubkey = λ q. ok tt;
  is_zero = λ q. not q;
  x_of = λ q. q;
  y_of = λ q. q;
  set_y = λ q y. y;
  is_null = λ y. not y;
  sub_from_prime = λ y. ok y;
  mpi_size = λ m. 1;
  write_binary = λ m n. ok ((if m then 1 else 0) ∷ []);
  write_point = write_bit;
  read_point = read_bit;
  pbits = 1;
  zero_mpi = false;
  zero_point = false;
}

pub plus_twice : (k q : Bool) → plus (plus k q) q ≡ k
unfolding plus
plus_twice false false = refl
plus_twice false true = refl
plus_twice true false = refl
plus_twice true true = refl

pub times_comm : (a b : Bool) → times a (times b true) ≡ times b (times a true)
unfolding times
times_comm false false = refl
times_comm false true = refl
times_comm true false = refl
times_comm true true = refl

read_written : (q : Bool) → read_bit ((if q then 4 else 0) ∷ []) ≡ ok q
read_written false = refl
read_written true = refl

-- the bytes of a result
abbrev bytes_or : Ret (List ℕ) → List ℕ → List ℕ
bytes_or (ok bytes) old = bytes
bytes_or (fail c) old = old

pub toy_generated : (d q : Bool) (r r' : ℕ) → toy.gen_keypair r ≡ ok (d, q, r') → q ≡ times d true
unfolding times
toy_generated false q r r' e = absurd (cc e)
toy_generated true q r r' e = cc e

pub bit_written :
    (q : Bool) (n : ℕ) (bytes : List ℕ) → write_bit q n ≡ ok bytes → read_bit bytes ≡ ok q
bit_written q zero bytes e = absurd (cc e)
bit_written q (suc n) bytes e =
    subst (λ bs. read_bit bs ≡ ok q) (ap (λ x. bytes_or x bytes) e) (read_written q)

bit_short : (q : Bool) (n : ℕ) (bytes : List ℕ) → write_bit q n ≡ ok bytes → length bytes ≤ n
bit_short q zero bytes e = absurd (cc e)
bit_short q (suc n) bytes e =
    subst (λ (bs : List ℕ). length bs ≤ suc n) (ap (λ x. bytes_or x bytes) e) (omega arith)

pub bit_trailing :
    (q : Bool) (bytes rest : List ℕ) → read_bit bytes ≡ ok q → read_bit (bytes ++ rest) ≡ ok q
bit_trailing q [] rest e = absurd (cc e)
bit_trailing q (b ∷ bs) rest e = e

pub toy-Wire : Wire toy
toy-Wire = record { short = bit_short; trailing = bit_trailing }

unfoldable pub toy-Laws : Laws toy
toy-Laws = record {
  times = times;
  plus = plus;
  base = true;
  negate = λ y. y;
  generated = λ r r' d q e. toy_generated d q r r' e;
  multiplied = λ d q s r r' e. cc e;
  added = λ a b. refl;
  copied = λ q. refl;
  negated = λ y. refl;
  self_inverse = λ k q e. plus_twice k q;
  inverse = λ k q e. plus_twice k q;
  commutes = times_comm;
  written = bit_written;
}

unfoldable pub odd : ℕ → Bool
odd zero = false
odd (suc n) = not (odd n)

abbrev pub read_first : List ℕ → ℕ → Ret (Bool × List ℕ)
read_first bytes n = and_then (read_bit bytes) λ s. ok (s, drop 1 bytes)

abbrev pub toy_arithmetic : Arithmetic Bool Bool
toy_arithmetic = record {
  lset = λ n. ok (odd n);
  inv_mod = λ m. ok m;
  set_zero = ok false;
  read_next = read_first;
  sub = λ a b. ok (plus a b);
  mul_int = λ m n. ok (times (odd n) m);
  mod_order = λ m. ok m;
}

bit_next :
    (s : Bool) (n : ℕ) (bytes rest : List ℕ) (t : Bool × List ℕ)
    → write_bit s n ≡ ok bytes
    → read_first (bytes ++ rest) 0 ≡ ok t
    → t.0 ≡ s
bit_next s n bytes rest t w r =
    let e = bit_trailing s bytes rest (bit_written s n bytes w) in
    let first : read_first (bytes ++ rest) 0 ≡ ok (s, drop 1 (bytes ++ rest)) =
      ap (λ (x : Ret Bool). and_then x λ s. ok (s, drop 1 (bytes ++ rest))) e in
    sym (ap (λ (x : Ret (Bool × List ℕ)). (or_old x t).0) (sym first ∙ r))

unit_true :
    (u e s : Bool) → toy_arithmetic.lset 1 ≡ ok u → toy_arithmetic.inv_mod u ≡ ok e → times e s ≡ s
unfolding times odd
unit_true u true s h h' = refl
unit_true u false s h h' = absurd (cc (h, h'))

pub toy-Further : Further toy toy_arithmetic toy-Laws
unfolding plus toy-Laws
toy-Further = record {
  neutral = λ s. refl;
  unit = λ u e s h h'. unit_true u e s h h';
  next = λ s n m bytes rest t w r. bit_next s n bytes rest t w r;
}
