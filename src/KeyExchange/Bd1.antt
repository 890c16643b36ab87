-- ===== src/KeyExchange/Bd1.antt =====
-- Project/libsmoke/libs/sknx/src/shared/knx/crypto/bd1.h: the key exchange of BD1. `id` is
-- `sKConfig.id()`, `junk` what the memory of a new telegram holds, `memory` and `heap` what the memory
-- of a buffer on the stack and of `tempbuf` holds before it is written, and `available` is
-- `sKConfig.ctr_drbg_available()`.
pub mod Order
mod Tests
use lib_smoke.Base.{
  ℕ, ◌+◌, ◌-◌, ◌*◌, ◌/◌, ◌%◌, List, [], ◌∷◌, ◌++◌, Option, none, some, Bool, true, false, not, ◌||◌,
  ltb, ◌==◌, if◌then◌else◌, length, drop, replicate, copy_at,
}
use lib_smoke.Telegram.{Telegram}
use lib_smoke.PktWrapper
use lib_smoke.PktWrapper.{Pkt, PktWrapper}
use lib_smoke.Sban.{Ret, ok, fail, check, Polarssl, Arithmetic}
use lib_smoke.Sban.Bd1 as Library
use lib_smoke.Sban.Bd1.{Context, gen_point, gen_value, compute_key}
use lib_smoke.KeyExchange.{
  KeyExchange, KeyStatus, key_offline, key_error, key_running, key_completed, is_offline,
  is_running,
}
use lib_smoke.KeyExchange.Neighbours.{network}
use lib_smoke.KeyExchange.Bd2Utils.{push, filled}

-- `BD1_BUFSIZE`
abbrev pub bufsize : ℕ
bufsize = 66

-- the opcodes
abbrev pub bd1_zi : ℕ
bd1_zi = 0x20

abbrev pub bd1_xi : ℕ
bd1_xi = 0x21

-- The members of `KeyExchange` and of `BD1KeyExchange`, and the random generator, which the object
-- reaches through `sKConfig`. The queue `_X_keys` has the lowest id in front.
pub record Bd1 (Mpi Point Rng : Type 0) : Type 0 where
  pub status : KeyStatus
  pub nodes : List ℕ
  pub key : List ℕ
  pub keylen : ℕ
  pub x_keys : List (ℕ × List ℕ)
  pub ctx : Context Mpi Point
  pub prev : ℕ
  pub next : ℕ
  pub zi : List ℕ
  pub recv_zcnt : ℕ
  pub rng : Rng

-- `_recvZcnt |= 1` and `_recvZcnt |= 2`
unfoldable pub or_1 : ℕ → ℕ
or_1 n = if n % 2 == 0 then n + 1 else n

unfoldable pub or_2 : ℕ → ℕ
or_2 n = if n / 2 % 2 == 0 then n + 2 else n

-- the keys in a queue, behind each other
unfoldable pub flat_keys : List (ℕ × List ℕ) → List ℕ
flat_keys [] = []
flat_keys (k ∷ ks) = k.1 ++ flat_keys ks

-- The two loops that fill `tempbuf`: the keys of the higher ids, and the queue `q` of the lower ones,
-- which come after them; the node's own key is left out.
unfoldable pub higher : ℕ → List (ℕ × List ℕ) → List (ℕ × List ℕ)
higher id [] = []
higher id (k ∷ ks) = if ltb id k.0 then k ∷ higher id ks else higher id ks

unfoldable pub lower : ℕ → List (ℕ × List ℕ) → List (ℕ × List ℕ)
lower id [] = []
lower id (k ∷ ks) = if ltb k.0 id then k ∷ lower id ks else lower id ks

unfoldable pub arrange : ℕ → List (ℕ × List ℕ) → List ℕ
unfolding flat_keys
arrange id x_keys = flat_keys (higher id x_keys ++ lower id x_keys)

module _ {Mpi Point Rng : Type 0} where
  -- `_get_prev_next_nodes`, whose loop is that of `network_t`
  abbrev pub get_prev_next_nodes : ℕ → Bd1 Mpi Point Rng → Bd1 Mpi Point Rng
  get_prev_next_nodes id s = let n = network id s.nodes in record s { prev = n.prev; next = n.next }

  -- the `switch` of `update`, for a packet whose data have the right size
  unfoldable pub take_zi : Bd1 Mpi Point Rng → Pkt → Bd1 Mpi Point Rng
  take_zi s packet =
      let s1 =
        if packet.src == s.prev
        then record s { zi = copy_at s.zi 0 packet.payload; recv_zcnt = or_1 s.recv_zcnt }
        else s in
      if packet.src == s.next
      then record s1 { zi = copy_at s1.zi bufsize packet.payload; recv_zcnt = or_2 s1.recv_zcnt }
      else s1

  unfoldable pub take_packet : Bd1 Mpi Point Rng → Pkt → Bd1 Mpi Point Rng
  unfolding take_zi push
  take_packet s packet =
      if not (length packet.payload == bufsize)
      then s
      else if packet.cmd == bd1_zi
      then take_zi s packet
      else if packet.cmd == bd1_xi
      then record s { x_keys = push (packet.src, packet.payload) s.x_keys }
      else s

  -- the `while` loop of `update`, and the packets that it leaves
  unfoldable pub take_in : Bd1 Mpi Point Rng → List Pkt → Bd1 Mpi Point Rng × List Pkt
  unfolding take_packet
  take_in s [] = (s, [])
  take_in s (packet ∷ packets) =
      let rest = take_in (take_packet s packet) packets in
      if ltb (length s.x_keys) (length s.nodes) then rest else (s, packet ∷ packets)

module _ {Mpi Point Rng : Type 0} (p : Polarssl Mpi Point Rng) (q : Arithmetic Mpi Point) (id : ℕ)
    (junk : ℕ → Telegram) (memory heap : List ℕ) (available : Bool) where
  abbrev pub Outcome : Type 0
  Outcome = Bool × Bd1 Mpi Point Rng × PktWrapper

  unfoldable pub init : List ℕ → Bd1 Mpi Point Rng → PktWrapper → Outcome
  init nodes s w =
      let s1 = record s { status = key_running; nodes = nodes } in
      let failed : Outcome = (false, record s1 { status = key_error }, w) in
      let started = check (Library.init p q (some s.ctx) 3) failed λ c.
        let s2 = record (get_prev_next_nodes id s1) { ctx = c; recv_zcnt = 0 } in
        check (gen_point p q (some c) bufsize s.rng) (false, record s2 { status = key_error }, w)
          λ r. (
            true,
            record s2 { ctx = r.0; rng = r.2 },
            (PktWrapper.write_all id junk w bd1_zi (filled memory r.1)).1,
          ) in
      if not (is_offline s.status)
      then (false, s, w)
      else if ltb 255 (length nodes) || ltb (length nodes) 2
      then (false, s, w)
      else if not available
      then failed
      else started

  unfoldable pub shutdown : Bd1 Mpi Point Rng → Bd1 Mpi Point Rng
  shutdown s = record s { status = key_offline }

  -- the first `if` of `update` after the loop
  unfoldable pub send_value : Bd1 Mpi Point Rng → PktWrapper → Outcome
  send_value s w =
      let sent =
        check (gen_value p q (some s.ctx) s.zi (2 * bufsize) bufsize s.rng)
          (false, record s { status = key_error }, w)
          λ r. (
            true,
            record s {
              ctx = r.0;
              rng = r.2;
              x_keys = push (id, filled memory r.1) s.x_keys;
              recv_zcnt = 4;
            },
            (PktWrapper.write_all id junk w bd1_xi (filled memory r.1)).1,
          ) in
      if s.recv_zcnt == 3 then sent else (true, s, w)

  -- and the second; the queue is empty after it
  unfoldable pub finish : Bd1 Mpi Point Rng → PktWrapper → Outcome
  finish s w =
      let n = length s.nodes in
      let s1 = record s { x_keys = [] } in
      let completed =
        check
          (compute_key p q (some s.ctx) (filled heap (arrange id s.x_keys)) (bufsize * n - 1) n
            bufsize s.rng)
          (false, record s1 { status = key_error }, w)
          λ r. (
            true,
            record s1 {
              keylen = r.0;
              key = r.1 ++ drop (length r.1) s.key;
              rng = r.2;
              status = key_completed;
            },
            w,
          ) in
      if length s.x_keys == n then completed else (true, s, w)

  -- `update` after its loop
  unfoldable pub after_loop : Outcome → Outcome
  unfolding finish
  after_loop (true, s, w) = finish s w
  after_loop (false, s, w) = (false, s, w)

  unfoldable pub update : Bd1 Mpi Point Rng → PktWrapper → Outcome
  unfolding take_in send_value after_loop
  update s w =
      let (s', packets) = take_in s w.in_queue in
      if not (is_running s.status)
      then (false, s, w)
      else after_loop (send_value s' (record w { in_queue = packets }))

  -- The class behind the interface.
  unfoldable pub exchange : KeyExchange (Bd1 Mpi Point Rng)
  exchange = record { init = init; shutdown = shutdown; update = update; status = λ s. s.status }
