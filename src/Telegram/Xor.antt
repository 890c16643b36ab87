-- ===== src/Telegram/Xor.antt =====
-- The loop of `telegram::checksum`, and the laws of `^` on bytes.
use Prim.Native.Nat.{bit_xor}
use lib_smoke.Base.{
  ℕ, zero, suc, ◌%◌, ◌^◌, ◌<◌, ◌≡◌, ◌≢◌, refl, ap, arith, List, [], ◌∷◌, ◌++◌, true, ◌==◌, ==_iff,
  sym, ◌∙◌, IsBytes, length, set, nth,
}
use lib_smoke.Telegram.Endian.{holds_below, holds_below-at}

-- `sum ^= byte` for each byte; `sum` is a `uint8_t`.
unfoldable pub xor_bytes : ℕ → List ℕ → ℕ
xor_bytes sum [] = sum
xor_bytes sum (b ∷ bs) = xor_bytes (bit_xor sum b % 2 ^ 8) bs

pub xor_bytes-append :
    (sum : ℕ) (xs ys : List ℕ) → xor_bytes sum (xs ++ ys) ≡ xor_bytes (xor_bytes sum xs) ys
unfolding xor_bytes
xor_bytes-append sum [] ys = refl
xor_bytes-append sum (x ∷ xs) ys = xor_bytes-append (bit_xor sum x % 2 ^ 8) xs ys

pub xor_bytes-lt : (sum : ℕ) (xs : List ℕ) → sum < 256 → xor_bytes sum xs < 256
unfolding xor_bytes
xor_bytes-lt sum [] h = h
xor_bytes-lt sum (x ∷ xs) h = xor_bytes-lt (bit_xor sum x % 2 ^ 8) xs (omega arith)

xor_table :
    holds_below (λ a. holds_below (λ b. bit_xor (bit_xor a b % 2 ^ 8) b == a) 256) 256 ≡ true
unfolding holds_below
xor_table = refl

pub xor_twice : (a b : ℕ) → a < 256 → b < 256 → bit_xor (bit_xor a b % 2 ^ 8) b ≡ a
xor_twice a b ha hb =
    (==_iff _ _).0 (holds_below-at _ 256 b (holds_below-at _ 256 a xor_table ha) hb)

xor_comm_table : holds_below (λ a. holds_below (λ b. bit_xor a b == bit_xor b a) 256) 256 ≡ true
unfolding holds_below
xor_comm_table = refl

xor_comm : (a b : ℕ) → a < 256 → b < 256 → bit_xor a b ≡ bit_xor b a
xor_comm a b ha hb =
    (==_iff _ _).0 (holds_below-at _ 256 b (holds_below-at _ 256 a xor_comm_table ha) hb)

xor_ne_left :
    (a a' b : ℕ)
    → a < 256
    → a' < 256
    → b < 256
    → a ≢ a'
    → bit_xor a b % 2 ^ 8 ≢ bit_xor a' b % 2 ^ 8
xor_ne_left a a' b h h' hb ne e =
    ne (sym (xor_twice a b h hb) ∙ (ap (λ x. bit_xor x b) e ∙ xor_twice a' b h' hb))

-- Two different sums stay different.
xor_bytes-ne :
    (a a' : ℕ) (xs : List ℕ)
    → a < 256
    → a' < 256
    → IsBytes xs
    → a ≢ a'
    → xor_bytes a xs ≢ xor_bytes a' xs
unfolding xor_bytes
xor_bytes-ne a a' [] h h' bs ne = ne
xor_bytes-ne a a' (x ∷ xs) h h' bs ne =
    xor_bytes-ne (bit_xor a x % 2 ^ 8) (bit_xor a' x % 2 ^ 8) xs (omega arith) (omega arith) bs.1
      (xor_ne_left a a' x h h' bs.0 ne)

-- One changed byte changes the sum.
pub xor_bytes-set :
    (sum : ℕ) (xs : List ℕ) (i v : ℕ)
    → sum < 256
    → IsBytes xs
    → v < 256
    → i < length xs
    → v ≢ nth xs i
    → xor_bytes sum (set xs i v) ≢ xor_bytes sum xs
unfolding xor_bytes
xor_bytes-set sum [] i v hs bs hv hi ne = absurd (omega arith)
xor_bytes-set sum (x ∷ xs) zero v hs bs hv hi ne =
    xor_bytes-ne (bit_xor sum v % 2 ^ 8) (bit_xor sum x % 2 ^ 8) xs (omega arith) (omega arith) bs.1
      (λ e.
        xor_ne_left v x sum hv bs.0 hs ne
          (omega (arith, e, xor_comm sum v hs hv, xor_comm sum x hs bs.0)))
xor_bytes-set sum (x ∷ xs) (suc i) v hs bs hv hi ne =
    xor_bytes-set (bit_xor sum x % 2 ^ 8) xs i v (omega arith) bs.1 hv (omega arith) ne
