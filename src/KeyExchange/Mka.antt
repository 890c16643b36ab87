-- ===== src/KeyExchange/Mka.antt =====
-- Project/libsmoke/libs/sknx/src/shared/knx/crypto/mka.h: the key exchange of MKA. `id` is
-- `sKConfig.id()`, `junk` what the memory of a new telegram holds, `memory` what the memory of a buffer
-- holds before it is written, and `available` is `sKConfig.ctr_drbg_available()`. A write past the end
-- of a vector has no result.
pub mod Bounds
pub mod Steps
pub mod Update
pub mod Pair
pub mod Begin
pub mod SameKey
mod Tests
use lib_smoke.Base.{
  ℕ, suc, ◌+◌, ◌-◌, ◌*◌, ◌%◌, List, [], ◌∷◌, ◌++◌, Option, none, some, Bool, true, false, not, ◌||◌,
  ltb, ◌==◌, if◌then◌else◌, length, take, drop, nth, replicate, copy_at,
}
use lib_smoke.Telegram.{Telegram}
use lib_smoke.PktWrapper
use lib_smoke.PktWrapper.{Pkt, PktWrapper}
use lib_smoke.NodeCounter.NodeSet.{insert, member}
use lib_smoke.Sban.{Ret, ok, fail, check, Polarssl, Arithmetic}
use lib_smoke.Sban.Mka as Library
use lib_smoke.Sban.Mka.{Context, set_part, make_broadval, acc_broadval, compute_key}
use lib_smoke.KeyExchange.{
  KeyExchange, KeyStatus, key_offline, key_error, key_running, key_completed, is_offline,
  is_running,
}
use lib_smoke.KeyExchange.Bd2Utils.{filled}

-- `MKA_BUFSIZE`
abbrev pub bufsize : ℕ
bufsize = 66

-- `CMD_MKA_PACKET`
abbrev pub mka_packet : ℕ
mka_packet = 0x27

-- The members of `KeyExchange` and of `MKAKeyExchange`, and the random generator, which the object
-- reaches through `sKConfig`. A deferred step is its sender, its number and its key.
pub record Mka (Mpi Point Rng : Type 0) : Type 0 where
  pub status : KeyStatus
  pub nodes : List ℕ
  pub current_step : ℕ
  pub key : List ℕ
  pub keylen : ℕ
  pub next_step : List (ℕ × ℕ × List ℕ)
  pub remote_keys : List ℕ
  pub remote_users : List ℕ
  pub ctx : Context Mpi Point
  pub rng : Rng

-- The constructors; the members that they leave alone are arguments.
abbrev pub create :
    {Mpi Point Rng : Type 0} → ℕ → List ℕ → ℕ → Context Mpi Point → Rng → Mka Mpi Point Rng
create step key keylen ctx rng = record {
  status = key_offline;
  nodes = [];
  current_step = step;
  key = key;
  keylen = keylen;
  next_step = [];
  remote_keys = [];
  remote_users = [];
  ctx = ctx;
  rng = rng;
}

-- `memcpy(&_remote_keys[pos * MKA_BUFSIZE], bytes, MKA_BUFSIZE)`
unfoldable pub store : List ℕ → ℕ → List ℕ → Option (List ℕ)
store keys pos bytes =
    if ltb (length keys) (pos * bufsize + bufsize)
    then none
    else some (copy_at keys (pos * bufsize) (take bufsize bytes))

-- a result, if there is one
abbrev pub bind : {A B : Type 0} → Option A → (A → Option B) → Option B
bind none f = none
bind (some a) f = f a

module _ {Mpi Point Rng : Type 0} where
  -- The key `bytes` of `src`, if there is none of it yet in this step.
  unfoldable pub add_key : Mka Mpi Point Rng → ℕ → List ℕ → Option (Mka Mpi Point Rng)
  unfolding store
  add_key s src bytes =
      if member src s.remote_users
      then some s
      else bind (store s.remote_keys (length s.remote_users) bytes)
          λ keys. some (record s { remote_keys = keys; remote_users = insert src s.remote_users })

  -- The loop over the deferred steps at the end of `_crypto_update`. What is stored is `bytes`, the key
  -- of the packet that `_crypto_update` is called with; `mks` is read as it was before the `pop`.
  unfoldable pub add_deferred :
      Mka Mpi Point Rng → List ℕ → List (ℕ × ℕ × List ℕ) → Option (Mka Mpi Point Rng)
  unfolding add_key
  add_deferred s bytes [] = some (record s { next_step = [] })
  add_deferred s bytes (mks ∷ rest) =
      bind (if mks.1 == s.current_step then add_key s mks.0 bytes else some s)
        λ s'. add_deferred s' bytes rest

  -- the packet's key, stored or deferred
  unfoldable pub receive_key : Mka Mpi Point Rng → Pkt → Option (Mka Mpi Point Rng)
  unfolding add_key
  receive_key s packet =
      let step_id = nth packet.payload 0 in
      let bytes = drop 1 packet.payload in
      if step_id == s.current_step
      then add_key s packet.src bytes
      else if step_id == s.current_step + 1
      then some (record s { next_step = s.next_step ++ ((packet.src, step_id, bytes) ∷ []) })
      else some s

module _ {Mpi Point Rng : Type 0} (p : Polarssl Mpi Point Rng) (q : Arithmetic Mpi Point) (id : ℕ)
    (junk : ℕ → Telegram) (memory : List ℕ) (available : Bool) where
  abbrev pub Outcome : Type 0
  Outcome = Bool × Mka Mpi Point Rng × PktWrapper

  -- `_crypto_broadcast`
  unfoldable pub crypto_broadcast : Mka Mpi Point Rng → PktWrapper → Outcome
  crypto_broadcast s w =
      check (make_broadval p q (some s.ctx) bufsize s.rng)
        (false, record s { status = key_error }, w)
        λ r. (
          true,
          record s { ctx = r.0; rng = r.2 },
          (PktWrapper.write_all id junk w mka_packet (s.current_step ∷ filled memory r.1)).1,
        )

  -- what follows a broadcast in `_crypto_update`
  unfoldable pub after_broadcast : Outcome → List ℕ → Option Outcome
  after_broadcast (false, s, w) bytes = some (false, s, w)
  after_broadcast (true, s, w) bytes =
      bind (add_deferred s bytes s.next_step) λ s'. some (true, s', w)

  -- the end of a step
  unfoldable pub finish_step : Mka Mpi Point Rng → PktWrapper → List ℕ → Option Outcome
  unfolding after_broadcast
  finish_step s w bytes =
      check (acc_broadval p q (some s.ctx) s.remote_keys (length s.remote_keys) s.rng)
        (some (false, record s { status = key_error }, w))
        λ r.
          let s' = record s {
            ctx = r.0;
            rng = r.1;
            remote_users = [];
            current_step = (s.current_step + 1) % 256;
          } in
          if s'.current_step == length s.nodes - 1
          then some (true, s', w)
          else after_broadcast (crypto_broadcast s' w) bytes

  -- `_crypto_update`
  unfoldable pub crypto_update : Mka Mpi Point Rng → PktWrapper → Pkt → Option Outcome
  unfolding finish_step
  crypto_update s w packet =
      if not (length packet.payload == suc bufsize)
      then some (true, s, w)
      else bind (receive_key s packet) λ s'.
        if length s'.remote_users == length s'.nodes - 1
        then finish_step s' w (drop 1 packet.payload)
        else some (true, s', w)

  -- `init` once the context has its part
  unfoldable pub init_part : Mka Mpi Point Rng → PktWrapper → Outcome
  unfolding crypto_broadcast
  init_part s w =
      crypto_broadcast
        (record s {
          remote_keys =
              take (bufsize * (length s.nodes - 1))
                (s.remote_keys ++ replicate (bufsize * (length s.nodes - 1)) 0);
          remote_users = [];
          current_step = 0;
        })
        w

  unfoldable pub init : List ℕ → Mka Mpi Point Rng → PktWrapper → Outcome
  unfolding init_part
  init nodes s w =
      let s1 = record s { status = key_running; nodes = nodes } in
      let failed : Outcome = (false, record s1 { status = key_error }, w) in
      let started = check (Library.init p q (some s.ctx) 3) failed λ c.
        check (set_part p q (some c) (length nodes) s.rng) failed
          λ r. init_part (record s1 { ctx = r.0; rng = r.1 }) w in
      if not (is_offline s.status)
      then (false, s, w)
      else if ltb 255 (length nodes) || ltb (length nodes) 2
      then (false, s, w)
      else if not available
      then failed
      else started

  -- the `while` loop of `update`, over the packets in the queue
  unfoldable pub receive_all : Mka Mpi Point Rng → PktWrapper → List Pkt → Option Outcome
  unfolding crypto_update
  receive_all s w [] = some (true, s, record w { in_queue = [] })
  receive_all s w (packet ∷ packets) =
      if not (ltb s.current_step (length s.nodes - 1))
      then some (true, s, record w { in_queue = packet ∷ packets })
      else if not (packet.cmd == mka_packet) || not (member packet.src s.nodes)
      then receive_all s w packets
      else bind (crypto_update s w packet) λ r.
        if r.0
        then receive_all r.1 r.2 packets
        else some (false, r.1, record r.2 { in_queue = packets })

  -- the end of `update`
  unfoldable pub finish : Mka Mpi Point Rng → PktWrapper → Outcome
  finish s w =
      let failed : Outcome = (false, record s { status = key_error }, w) in
      let completed = check (compute_key p q (some s.ctx) bufsize s.rng) failed λ r. (
        true,
        record s {
          ctx = r.0;
          keylen = r.1;
          key = r.2 ++ drop (length r.2) s.key;
          rng = r.3;
          status = key_completed;
        },
        w,
      ) in
      if s.current_step == length s.nodes - 1 then completed else (true, s, w)

  unfoldable pub update : Mka Mpi Point Rng → PktWrapper → Option Outcome
  unfolding receive_all finish
  update s w =
      let after =
        bind (receive_all s w w.in_queue) λ r. if r.0 then some (finish r.1 r.2) else some r in
      if is_running s.status then after else some (false, s, w)

  -- `memset(_keyBuffer, 0, sizeof(_keyBuffer))`
  unfoldable pub shutdown : Mka Mpi Point Rng → Mka Mpi Point Rng
  shutdown s = record s { status = key_offline; key = replicate bufsize 0 }

  -- `operator=`
  unfoldable pub assign : Mka Mpi Point Rng → Mka Mpi Point Rng → Mka Mpi Point Rng
  assign s other = record s {
    keylen = other.keylen;
    key = take other.keylen other.key ++ drop other.keylen s.key;
  }
