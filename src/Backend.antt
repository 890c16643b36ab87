-- ===== src/Backend.antt =====
-- Project/libsmoke/libs/sknx/src/shared/knx/backend: how telegrams reach the bus. What the system
-- calls return is an argument of the operation that makes them, and what they are asked to do goes
-- to a log.
pub mod Framing
pub mod LinuxTcp
pub mod LinuxUart
pub mod LinuxTpuart
mod Tests
use lib_smoke.Base.{ℕ, List, Option, none, some, false, Bool, true, not, ◌==◌}
use lib_smoke.Telegram.{Telegram}

-- `select` on one descriptor: -1, 0, or the descriptor is readable.
pub data Select : Type 0 where
  select_failed timed_out readable : Select

-- `recv` or `read`: -1, or the bytes that it stored (none at the end of the stream).
pub data Recv : Type 0 where
  recv_failed : Recv
  recv_bytes : List ℕ → Recv

-- `send` or `write`: -1, or the number of bytes taken.
pub data Sent : Type 0 where
  send_failed : Sent
  sent_bytes : ℕ → Sent

-- A descriptor is `none` for -1.
pub data Effect : Type 0 where
  closes : Option ℕ → Effect
  sends : Option ℕ → List ℕ → Effect

-- A `ssize_t` returned as a `bool`: false for 0 alone.
abbrev pub as_bool : Sent → Bool
as_bool send_failed = true
as_bool (sent_bytes n) = not (n == 0)

-- a descriptor in a test: false for 0 alone, so also true for -1
abbrev pub is_zero : Option ℕ → Bool
is_zero none = false
is_zero (some fd) = fd == 0

-- The methods of the class `Backend` that PKTWrapper and SKNX call; results that they ignore are
-- left out.
pub record Backend (S : Type 0) : Type 0 where
  pub update : S → S
  pub broadcast : S → Telegram → S
  pub count : S → ℕ
  pub read : S → Telegram → Telegram × S
  pub must_update : S → Bool
