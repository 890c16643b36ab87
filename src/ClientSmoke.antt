-- ===== src/ClientSmoke.antt =====
-- Project/libsmoke/src/libsmoke_client.h: a client agrees on a key with the others, and then sends and
-- receives packets. Its backend, node counter and key exchange are any that fill their interfaces;
-- `xcrypt` is AES_CTR_xcrypt_buffer after AES_init_ctx_iv with a key and the fixed `iv`.
pub mod Init
mod Tests
use lib_smoke.Base.{ℕ, zero, suc, List, [], Option, none, some, Bool, true, false, if◌then◌else◌}
use lib_smoke.Telegram.{Telegram}
use lib_smoke.Backend.{Backend}
use lib_smoke.PktWrapper
use lib_smoke.PktWrapper.{Pkt, PktWrapper}
use lib_smoke.PktWrapper.Update
use lib_smoke.NodeCounter.{NodeCounter}
use lib_smoke.KeyExchange.{KeyExchange}
use lib_smoke.Sknx
use lib_smoke.Sknx.{Status, offline, counting, handshaking, finalizing, online, Sknx, get_key}

pub record ClientSmoke (B K : Type 0) : Type 0 where
  pub pktwrapper : PktWrapper
  pub key : K
  pub backend : B

-- the condition under which the loop of `init` stops
abbrev pub stopped : Status → Bool
stopped offline = true
stopped counting = false
stopped handshaking = false
stopped finalizing = false
stopped online = true

module _ {B C K : Type 0} (be : Backend B) (co : NodeCounter C) (ke : KeyExchange K)
    (backend_init : B → Bool × B) (assign : K → K → K) (xcrypt : K → List ℕ → List ℕ) (id : ℕ)
    (junk : Telegram) where
  abbrev pub state_of : Option (Bool × Sknx B C K) → Option (Sknx B C K)
  state_of none = none
  state_of (some (done, s)) = some s

  -- The loop of `init`; `none` if it has not ended after `n` rounds, or an update has not. Each update
  -- gets `fuel` rounds.
  unfoldable pub agree : ℕ → ℕ → Option (Sknx B C K) → Option (Sknx B C K)
  agree n fuel none = none
  agree zero fuel (some s) = if stopped s.status then some s else none
  agree (suc n) fuel (some s) =
      let rest = agree n fuel (state_of (Sknx.update be co ke fuel id junk s)) in
      if stopped s.status then some s else rest

  -- what `init` does with the key that `getKey` copies out
  abbrev pub keep_key : Option K → ClientSmoke B K → Bool × ClientSmoke B K
  keep_key none c = (false, c)
  keep_key (some k) c = (true, record c { key = assign c.key k })

  -- what is left of `init` after the loop
  abbrev pub agreed : Option (Sknx B C K) → ClientSmoke B K → Option (Bool × ClientSmoke B K)
  agreed none c = none
  agreed (some s) c = some (keep_key (get_key s) (record c { backend = s.backend }))

  -- `init` of the SKNX object `s`, and the loop, once the backend is initialised
  unfoldable pub start :
      ℕ → ℕ → Bool × Sknx B C K → ClientSmoke B K → Option (Bool × ClientSmoke B K)
  start n fuel (false, s) c = some (false, c)
  start n fuel (true, s) c = agreed (agree n fuel (some s)) c

  -- `init` with the result of `_backend.init()`; `counter` and `key` are what the members of the SKNX
  -- object start as.
  unfoldable pub init_with :
      ℕ → ℕ → ℕ → C → K → Bool × B → ClientSmoke B K → Option (Bool × ClientSmoke B K)
  unfolding start
  init_with n fuel num_clients counter key (false, b) c = some (false, record c { backend = b })
  init_with n fuel num_clients counter key (true, b) c =
      start n fuel (Sknx.init be co ke (Sknx.create b counter key num_clients))
        (record c { backend = b })

  unfoldable pub init : ℕ → ℕ → ℕ → C → K → ClientSmoke B K → Option (Bool × ClientSmoke B K)
  unfolding init_with
  init n fuel num_clients counter key c =
      init_with n fuel num_clients counter key (backend_init c.backend) c

  -- the state after `_pktwrapper.update()`
  abbrev pub updated : ClientSmoke B K → Option (B × PktWrapper) → Option (ClientSmoke B K)
  updated c none = none
  updated c (some (b, w)) = some (record c { backend = b; pktwrapper = w })

  -- the packet that is read; the bytes that are deciphered are those of a copy, which is dropped
  abbrev pub take_packet : Option (ClientSmoke B K) → Option (Option Pkt × ClientSmoke B K)
  take_packet none = none
  take_packet (some c) =
      let (p, w) = PktWrapper.read c.pktwrapper in some (p, record c { pktwrapper = w })

  unfoldable pub receive : ℕ → ClientSmoke B K → Option (Option Pkt × ClientSmoke B K)
  receive fuel c = take_packet (updated c (Update.update be fuel id junk c.backend c.pktwrapper))

  -- `send`: the buffer of the caller, which now holds the ciphertext, and the new state; `memory` is
  -- what the new telegrams hold.
  unfoldable pub send :
      ℕ → (ℕ → Telegram) → ClientSmoke B K → ℕ → ℕ → List ℕ → List ℕ × Option (ClientSmoke B K)
  send fuel memory c dest cmd buf =
      let buf' = xcrypt c.key buf in
      let w = (PktWrapper.write id memory c.pktwrapper dest cmd buf').1 in
      (buf', updated c (Update.update be fuel id junk c.backend w))
