-- ===== src/Sknx.antt =====
-- Project/libsmoke/libs/sknx/src/shared/knx/knx.h: nodes are counted, then they agree on a key. The
-- backend, the counter and the key exchange are any that fill their interfaces.
pub mod Machine
pub mod Keyed
mod Tests
use lib_smoke.Base.{ℕ, List, [], Option, none, some, Bool, true, false, if◌then◌else◌}
use lib_smoke.Telegram.{Telegram}
use lib_smoke.Backend.{Backend}
use lib_smoke.PktWrapper
use lib_smoke.PktWrapper.{PktWrapper}
use lib_smoke.PktWrapper.Update
use lib_smoke.NodeCounter.{
  NodeCounter, CounterStatus, counter_offline, counter_counting, counter_completed,
}
use lib_smoke.KeyExchange.{
  KeyExchange, KeyStatus, key_offline, key_error, key_running, key_completed,
}

-- `SKNXStatus`
pub data Status : Type 0 where
  offline counting handshaking finalizing online : Status

pub record Sknx (B C K : Type 0) : Type 0 where
  pub pktwrapper : PktWrapper
  pub counter : C
  pub key : K
  pub status : Status
  pub backend : B

-- the constructor, with the counter and the key exchange that its members start as
abbrev pub create : {B C K : Type 0} → B → C → K → ℕ → Sknx B C K
create b c k max_clients = record {
  pktwrapper = PktWrapper.create max_clients;
  counter = c;
  key = k;
  status = offline;
  backend = b;
}

module _ {B C K : Type 0} (be : Backend B) (co : NodeCounter C) (ke : KeyExchange K) where
  -- `init` once `_counter.init` has returned
  abbrev pub init_counted : Bool × C → Sknx B C K → Bool × Sknx B C K
  init_counted (false, c) s = (false, record s { counter = c })
  init_counted (true, c) s = (true, record s { counter = c; status = counting })

  -- `init`, by the status
  unfoldable pub init_at : Status → Sknx B C K → Bool × Sknx B C K
  init_at offline s = init_counted (co.init s.counter) s
  init_at _ s = (false, s)

  unfoldable pub init : Sknx B C K → Bool × Sknx B C K
  unfolding init_at
  init s = init_at s.status s

  -- `_update_counter`, by the status of the counter
  unfoldable pub update_counter : CounterStatus → Sknx B C K → Bool × Sknx B C K
  update_counter counter_offline s = (false, record s { status = offline })
  update_counter counter_counting s =
      let (done, c, w) = co.update s.counter s.pktwrapper in
      let s' = record s { counter = c; pktwrapper = w } in
      if done then (true, s') else (false, record s' { status = offline })
  update_counter counter_completed s =
      let c = co.shutdown s.counter in
      let (done, k, w) = ke.init (co.nodes c) s.key s.pktwrapper in
      let s' = record s { counter = c; key = k; pktwrapper = w } in
      if done
      then (true, record s' { status = handshaking })
      else (false, record s' { status = offline })

  -- `_update_handshaking`, by the status of the key exchange
  unfoldable pub update_handshaking : KeyStatus → Sknx B C K → Bool × Sknx B C K
  update_handshaking key_offline s = (false, record s { status = offline })
  update_handshaking key_error s = (false, record s { status = offline; key = ke.shutdown s.key })
  update_handshaking key_running s =
      let (done, k, w) = ke.update s.key s.pktwrapper in
      let s' = record s { key = k; pktwrapper = w } in
      if done then (true, s') else (true, record s' { status = offline; key = ke.shutdown k })
  update_handshaking key_completed s = (true, record s { status = finalizing })

  -- the `switch` of `update`
  unfoldable pub switch : Status → Sknx B C K → Bool × Sknx B C K
  unfolding update_counter update_handshaking
  switch offline s = (false, s)
  switch counting s = update_counter (co.status s.counter) s
  switch handshaking s = update_handshaking (ke.status s.key) s
  switch finalizing s =
      if be.must_update s.backend
      then (false, record s { backend = be.update s.backend })
      else (false, record s { status = online })
  switch online s = (true, s)

  -- The switch after `_pktwrapper.update()`, if that ended within `fuel` rounds.
  unfoldable pub switch_after : Sknx B C K → Option (B × PktWrapper) → Option (Bool × Sknx B C K)
  switch_after s none = none
  switch_after s (some (b, w)) = some (switch s.status (record s { backend = b; pktwrapper = w }))

  unfoldable pub update : ℕ → ℕ → Telegram → Sknx B C K → Option (Bool × Sknx B C K)
  unfolding switch_after
  update fuel id junk s = switch_after s (Update.update be fuel id junk s.backend s.pktwrapper)

-- `getKey`: the key that is copied out, `none` where it returns false.
abbrev pub get_key_at : {K : Type 0} → Status → K → Option K
get_key_at online k = some k
get_key_at _ k = none

unfoldable pub get_key : {B C K : Type 0} → Sknx B C K → Option K
get_key s = get_key_at s.status s.key
