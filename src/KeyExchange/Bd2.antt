-- ===== src/KeyExchange/Bd2.antt =====
-- Project/libsmoke/libs/sknx/src/shared/knx/crypto/bd2.h: the key exchange of BD2. `id`, `junk` and
-- `memory` are as in Bd2Utils, and `available` is `sKConfig.ctr_drbg_available()`.
pub mod Status
pub mod Keyed
mod Tests
use lib_smoke.Base.{
  ℕ, List, [], ◌∷◌, Option, none, some, Bool, true, false, not, ◌||◌, ltb, ◌==◌, if◌then◌else◌,
  length,
}
use lib_smoke.Telegram.{Telegram}
use lib_smoke.PktWrapper.{Pkt, PktWrapper}
use lib_smoke.Sban.{Polarssl}
use lib_smoke.KeyExchange.{
  KeyExchange, KeyStatus, key_offline, key_error, key_running, key_completed, is_offline,
  is_running,
}
use lib_smoke.KeyExchange.Policies.{get_node}
use lib_smoke.KeyExchange.Bd2Utils
use lib_smoke.KeyExchange.Bd2Utils.{World, Behavior, Role, chair_role, node_role, on_recv}

-- The members of `KeyExchange` and of `BD2CustomKeyExchange`, and the random generator, which the
-- object reaches through `sKConfig`; a behavior that is `NULL` is `none`.
pub record Bd2 (Mpi Point Rng : Type 0) : Type 0 where
  pub status : KeyStatus
  pub nodes : List ℕ
  pub behavior : Option (Behavior Mpi Point)
  pub rng : Rng

-- the constructors
abbrev pub create : {Mpi Point Rng : Type 0} → Rng → Bd2 Mpi Point Rng
create rng = record { status = key_offline; nodes = []; behavior = none; rng = rng }

-- whether the behavior has completed, or there is none
abbrev pub has_completed : {Mpi Point : Type 0} → Option (Behavior Mpi Point) → Bool
has_completed none = false
has_completed (some b) = b.completed

module _ {Mpi Point Rng : Type 0} (p : Polarssl Mpi Point Rng) (id : ℕ) (junk : ℕ → Telegram)
    (memory : List ℕ) (available : Bool) where
  abbrev pub Outcome : Type 0
  Outcome = Bool × Bd2 Mpi Point Rng × PktWrapper

  -- `init` once `_behavior->init()` has returned
  abbrev pub init_behavior : Bool × Behavior Mpi Point × World Rng → Bd2 Mpi Point Rng → Outcome
  init_behavior (true, b, w) s = (true, record s { behavior = some b; rng = w.rng }, w.pkts)
  init_behavior (false, b, w) s = (false, record s { behavior = none; rng = w.rng }, w.pkts)

  unfoldable pub init : List ℕ → Bd2 Mpi Point Rng → PktWrapper → Outcome
  init nodes s w =
      let s1 = record s { status = key_running; nodes = nodes } in
      let chair_id = get_node nodes in
      let role = if id == chair_id then chair_role (length nodes) [] else node_role chair_id in
      let b = Bd2Utils.create p id junk memory role in
      if not (is_offline s.status)
      then (false, s, w)
      else if ltb 255 (length nodes) || ltb (length nodes) 2
      then (false, s, w)
      else if not available
      then (false, record s1 { status = key_error }, w)
      else init_behavior (Bd2Utils.init p id junk memory role b (record { rng = s.rng; pkts = w }))
          s1

  unfoldable pub shutdown : Bd2 Mpi Point Rng → Bd2 Mpi Point Rng
  shutdown s = record s { status = key_offline; behavior = none }

  -- the `while` loop of `update`, over the packets in the queue
  unfoldable pub deliver :
      Option (Behavior Mpi Point)
      → World Rng
      → List Pkt
      → Bool × Option (Behavior Mpi Point) × World Rng
  deliver b w [] = (true, b, record w { pkts = record w.pkts { in_queue = [] } })
  deliver none w (packet ∷ packets) = deliver none w packets
  deliver (some b) w (packet ∷ packets) =
      let (good, b', w') = on_recv p id junk memory b.role b w packet in
      let rest = deliver (some b') w' packets in
      if good
      then rest
      else (false, some b', record w' { pkts = record w'.pkts { in_queue = packets } })

  unfoldable pub update : Bd2 Mpi Point Rng → PktWrapper → Outcome
  unfolding deliver
  update s w =
      let (good, b, w') = deliver s.behavior (record { rng = s.rng; pkts = w }) w.in_queue in
      let s' = record s { behavior = b; rng = w'.rng } in
      if not (is_running s.status)
      then (false, s, w)
      else if not good
      then (false, s', w'.pkts)
      else if has_completed b
      then (true, record s' { status = key_completed }, w'.pkts)
      else (true, s', w'.pkts)

  -- `key` and `size`
  abbrev pub key_of : Option (Behavior Mpi Point) → Option (List ℕ)
  key_of none = none
  key_of (some b) = some b.key

  abbrev pub size_of : Option (Behavior Mpi Point) → ℕ
  size_of none = 0
  size_of (some b) = b.keylen

  -- The class behind the interface.
  unfoldable pub exchange : KeyExchange (Bd2 Mpi Point Rng)
  exchange = record { init = init; shutdown = shutdown; update = update; status = λ s. s.status }
