-- ===== src/KeyExchange.antt =====
-- Project/libsmoke/libs/sknx/src/shared/knx/crypto/crypto.h: the status of a key exchange, and what
-- SKNX calls of one. As with a node counter, an operation takes and returns the packet wrapper that
-- the object holds a reference to.
pub mod Policies
pub mod Neighbours
pub mod Bd2Utils
pub mod Bd2
pub mod Mka
pub mod Bd1
pub mod Gdh2Utils
pub mod Gdh2
mod Tests
use lib_smoke.Base.{ℕ, List, Bool, true, false}
use lib_smoke.PktWrapper.{PktWrapper}

-- `KeyExchangeStatus`
pub data KeyStatus : Type 0 where
  key_offline key_error key_running key_completed : KeyStatus

abbrev pub is_offline : KeyStatus → Bool
is_offline key_offline = true
is_offline _ = false

abbrev pub is_running : KeyStatus → Bool
is_running key_running = true
is_running _ = false

-- The class `KeyExchange`.
pub record KeyExchange (K : Type 0) : Type 0 where
  pub init : List ℕ → K → PktWrapper → Bool × K × PktWrapper
  pub shutdown : K → K
  pub update : K → PktWrapper → Bool × K × PktWrapper
  pub status : K → KeyStatus
