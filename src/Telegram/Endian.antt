-- ===== src/Telegram/Endian.antt =====
-- `toBigEndian16` of Project/libsmoke/libs/sknx/src/shared/knx/common.h
use Prim.Native.Nat.{bit_or}
use lib_smoke.Base.{
  ℕ, zero, suc, ◌+◌, ◌*◌, ◌/◌, ◌%◌, ◌^◌, ◌<◌, ◌≡◌, refl, arith, Bool, true, ◌&&◌, ◌==◌, ==_iff,
}

unfoldable pub to_big_endian_16 : ℕ → ℕ
to_big_endian_16 x = bit_or (x * 2 ^ 8 % 2 ^ 16) (x / 2 ^ 8)

-- whether a test holds of every number below a bound: a table of all bytes
unfoldable pub holds_below : (ℕ → Bool) → ℕ → Bool
holds_below test zero = true
holds_below test (suc bound) = holds_below test bound && test bound

pub holds_below-at :
    (test : ℕ → Bool) (bound n : ℕ) → holds_below test bound ≡ true → n < bound → test n ≡ true
unfolding holds_below
holds_below-at test zero n h lt = absurd (omega arith)
holds_below-at test (suc bound) n h lt = ground (arith, holds_below-at test bound n)

or_table : holds_below (λ a. holds_below (λ b. bit_or (a * 256) b == a * 256 + b) 256) 256 ≡ true
unfolding holds_below
or_table = refl

or_bytes : (a b : ℕ) → a < 256 → b < 256 → bit_or (a * 256) b ≡ a * 256 + b
or_bytes a b ha hb = (==_iff _ _).0 (holds_below-at _ 256 b (holds_below-at _ 256 a or_table ha) hb)

pub to_big_endian_16-eq : (x : ℕ) → x < 2 ^ 16 → to_big_endian_16 x ≡ x % 256 * 256 + x / 256
unfolding to_big_endian_16
to_big_endian_16-eq x h =
    let e : x * 2 ^ 8 % 2 ^ 16 ≡ x % 256 * 256 = omega arith in
    rw e (or_bytes (x % 256) (x / 256) (omega arith) (omega arith))

pub to_big_endian_16-lt : (x : ℕ) → x < 2 ^ 16 → to_big_endian_16 x < 2 ^ 16
to_big_endian_16-lt x h = omega (arith, to_big_endian_16-eq x h)

-- Swapping the bytes of a 16-bit number twice gives the number back.
pub to_big_endian_16_twice : (x : ℕ) → x < 2 ^ 16 → to_big_endian_16 (to_big_endian_16 x) ≡ x
to_big_endian_16_twice x h = omega (
  arith,
  to_big_endian_16-eq x h,
  to_big_endian_16-eq (to_big_endian_16 x) (to_big_endian_16-lt x h),
)
