-- ===== src/KeyExchange/Gdh2.antt =====
-- Project/libsmoke/libs/sknx/src/shared/knx/crypto/gdh2.h: the key exchange of GDH2. `id` and `junk` are
-- as in Gdh2Utils, and `available` is `sKConfig.ctr_drbg_available()`.
use lib_smoke.Base.{
  ℕ, List, [], ◌∷◌, Option, none, some, Bool, true, false, not, ◌||◌, ltb, ◌==◌, if◌then◌else◌,
  length,
}
use lib_smoke.Telegram.{Telegram}
use lib_smoke.PktWrapper.{Pkt, PktWrapper}
use lib_smoke.Sban.{Polarssl, Arithmetic}
use lib_smoke.Sban.Util.{Curve}
use lib_smoke.KeyExchange.{
  KeyExchange, KeyStatus, key_offline, key_error, key_running, key_completed, is_offline,
  is_running,
}
use lib_smoke.KeyExchange.Neighbours.{Network, network}
use lib_smoke.KeyExchange.Bd2Utils.{World}
use lib_smoke.KeyExchange.Gdh2Utils
use lib_smoke.KeyExchange.Gdh2Utils.{Behavior, Place, first_node, last_node, simple_node, on_recv}

-- The members of `KeyExchange` and of `GDH2KeyExchange`, and the random generator, which the object
-- reaches through `sKConfig`; a behavior that is `NULL` is `none`.
pub record Gdh2 (Mpi Rng : Type 0) : Type 0 where
  pub status : KeyStatus
  pub nodes : List ℕ
  pub behavior : Option (Behavior Mpi)
  pub rng : Rng

-- the constructors
abbrev pub create : {Mpi Rng : Type 0} → Rng → Gdh2 Mpi Rng
create rng = record { status = key_offline; nodes = []; behavior = none; rng = rng }

-- which behavior `init` makes
unfoldable pub place_of : ℕ → Network → Place
place_of id net =
    if id == net.first then first_node else if id == net.last then last_node else simple_node

abbrev pub is_done : {Mpi : Type 0} → Option (Behavior Mpi) → Bool
is_done none = false
is_done (some b) = b.completed

module _ {Mpi Point Rng : Type 0} (p : Polarssl Mpi Point Rng) (q : Arithmetic Mpi Point)
    (k : Curve Mpi Point Rng) (id : ℕ) (junk : ℕ → Telegram) (available : Bool) where
  abbrev pub Outcome : Type 0
  Outcome = Bool × Gdh2 Mpi Rng × PktWrapper

  -- `init` once `_behavior->init()` has returned
  abbrev pub start_behavior : Bool × Behavior Mpi × World Rng → Gdh2 Mpi Rng → Outcome
  start_behavior (true, b, w) s = (true, record s { behavior = some b; rng = w.rng }, w.pkts)
  start_behavior (false, b, w) s = (false, record s { behavior = none; rng = w.rng }, w.pkts)

  unfoldable pub init : List ℕ → Gdh2 Mpi Rng → PktWrapper → Outcome
  unfolding place_of
  init nodes s w =
      let s1 = record s { status = key_running; nodes = nodes } in
      let net = network id nodes in
      let place = place_of id net in
      let (b, v) =
        Gdh2Utils.create p q k id junk place net nodes (record { rng = s.rng; pkts = w }) in
      if not (is_offline s.status)
      then (false, s, w)
      else if ltb 255 (length nodes) || ltb (length nodes) 2
      then (false, s, w)
      else if not available
      then (false, record s1 { status = key_error }, w)
      else start_behavior (Gdh2Utils.init p q k id junk place b v) s1

  unfoldable pub shutdown : Gdh2 Mpi Rng → Gdh2 Mpi Rng
  shutdown s = record s { status = key_offline; behavior = none }

  -- the `while` loop of `update`, over the packets in the queue
  unfoldable pub hand_over :
      Option (Behavior Mpi) → World Rng → List Pkt → Bool × Option (Behavior Mpi) × World Rng
  hand_over b w [] = (true, b, record w { pkts = record w.pkts { in_queue = [] } })
  hand_over none w (packet ∷ packets) = hand_over none w packets
  hand_over (some b) w (packet ∷ packets) =
      let (good, b', w') = on_recv p q k id junk b.place b w packet in
      let rest = hand_over (some b') w' packets in
      if good
      then rest
      else (false, some b', record w' { pkts = record w'.pkts { in_queue = packets } })

  unfoldable pub update : Gdh2 Mpi Rng → PktWrapper → Outcome
  unfolding hand_over
  update s w =
      let (good, b, w') = hand_over s.behavior (record { rng = s.rng; pkts = w }) w.in_queue in
      let s' = record s { behavior = b; rng = w'.rng } in
      if not (is_running s.status)
      then (false, s, w)
      else if not good
      then (false, s', w'.pkts)
      else if is_done b
      then (true, record s' { status = key_completed }, w'.pkts)
      else (true, s', w'.pkts)

  -- The class behind the interface.
  unfoldable pub exchange : KeyExchange (Gdh2 Mpi Rng)
  exchange = record { init = init; shutdown = shutdown; update = update; status = λ s. s.status }
