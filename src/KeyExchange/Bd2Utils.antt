-- ===== src/KeyExchange/Bd2Utils.antt =====
-- Project/libsmoke/libs/sknx/src/shared/knx/crypto/bd2_utils.h: what the chair and the other nodes do
-- in BD2. `id` is `sKConfig.id()`, `junk` what the memory of a new telegram holds, and `memory` what
-- the memory of a buffer holds before it is written. What a call of the library has written when it
-- fails is not modelled: SKNX shuts the exchange down then.
pub mod Sends
pub mod Answers
pub mod SameKey
pub mod Exports
use lib_smoke.Base.{
  ℕ, ◌+◌, ◌-◌, List, [], ◌∷◌, ◌++◌, Option, none, some, Bool, true, false, not, ltb, ◌==◌,
  if◌then◌else◌, length, drop,
}
use lib_smoke.Telegram.{Telegram}
use lib_smoke.PktWrapper
use lib_smoke.PktWrapper.{Pkt, PktWrapper}
use lib_smoke.Sban.{Ret, ok, fail, check, Polarssl}
use lib_smoke.Sban.Bd2
use lib_smoke.Sban.Bd2.{
  Context, make_key, export_key, make_val, import_val, calc_key, make_public, read_public,
}

-- `BD2_BUFSIZE`
abbrev pub bufsize : ℕ
bufsize = 66

-- the opcodes
abbrev pub node_zi : ℕ
node_zi = 0x22

abbrev pub chair_z0 : ℕ
chair_z0 = 0x23

abbrev pub chair_xi : ℕ
chair_xi = 0x24

-- What a behavior reaches by reference: the random generator and the packet wrapper.
pub record World (Rng : Type 0) : Type 0 where
  pub rng : Rng
  pub pkts : PktWrapper

-- The members of `ChairBehavior`, the number of nodes and the queue of public values with the lowest
-- id in front, and of `NodeBehavior`, the chair's id. `ChairBehavior` has a reference to the set of
-- nodes, which only `init` of an object that is offline assigns.
pub data Role : Type 0 where
  chair_role : ℕ → List (ℕ × List ℕ) → Role
  node_role : ℕ → Role

-- The members of `Behavior`; the context is there when `_inited` is set.
pub record Behavior (Mpi Point : Type 0) : Type 0 where
  pub role : Role
  pub keylen : ℕ
  pub key : List ℕ
  pub completed : Bool
  pub ctx : Option (Context Mpi Point)

-- The push of `std::priority_queue` with `operator<` of `_bd2_keys_t`; of one id, which the standard
-- leaves open, the first comes first.
unfoldable pub push : ℕ × List ℕ → List (ℕ × List ℕ) → List (ℕ × List ℕ)
push k [] = k ∷ []
push k (x ∷ queue) = let rest = push k queue in if ltb k.0 x.0 then k ∷ x ∷ queue else x ∷ rest

abbrev pub succeeded : {A : Type 0} → Ret A → Option A
succeeded (ok a) = some a
succeeded (fail c) = none

-- `if(!_inited) return false;`
abbrev pub when_inited : {A R : Type 0} → Option A → R → (A → R) → R
when_inited none bad f = bad
when_inited (some c) bad f = f c

-- a buffer after the call that wrote `bytes` to its front
unfoldable pub filled : List ℕ → List ℕ → List ℕ
filled memory bytes = bytes ++ drop (length bytes) memory

module _ {Mpi Point Rng : Type 0} (p : Polarssl Mpi Point Rng) (id : ℕ) (junk : ℕ → Telegram)
    (memory : List ℕ) where
  abbrev pub Outcome : Type 0
  Outcome = Bool × Behavior Mpi Point × World Rng

  -- the constructors; `POLARSSL_ECP_DP_SECP256R1` is 3
  unfoldable pub create : Role → Behavior Mpi Point
  create role = record {
    role = role;
    keylen = 0;
    key = [];
    completed = false;
    ctx = succeeded (
        Bd2.init p
          (some (record {
            priv = p.zero_mpi;
            pub_point = p.zero_point;
            peer = p.zero_point;
            x = p.zero_point;
            key = p.zero_point;
          }))
          3);
  }

  -- the call of `bd2_export_key`, and what follows it
  unfoldable pub export : Context Mpi Point → Behavior Mpi Point → World Rng → Bool → Outcome
  export c b s done =
      check (export_key p c bufsize) (false, b, s)
        λ k. (true, record b { keylen = k.0; key = k.1; completed = done }, s)

  -- `ChairBehavior::init`
  unfoldable pub chair_init : Behavior Mpi Point → World Rng → Outcome
  unfolding export
  chair_init b s =
      when_inited b.ctx (false, b, s)
        λ c.
          check (make_public p (some c) bufsize s.rng) (false, b, s)
            λ r.
              let b1 = record b { ctx = some r.0 } in
              let s1 : World Rng = record {
                rng = r.2;
                pkts = (PktWrapper.write_all id junk s.pkts chair_z0 (filled memory r.1)).1;
              } in
              check (make_key p (some r.0) r.2) (false, b1, s1)
                λ k. export k.0 (record b1 { ctx = some k.0 }) (record s1 { rng = k.1 }) b.completed

  -- the `while` loop of `ChairBehavior::on_recv` and the statement after it
  unfoldable pub send_values :
      ℕ → Context Mpi Point → Behavior Mpi Point → World Rng → List (ℕ × List ℕ) → Outcome
  send_values n c b s [] =
      (true, record b { role = chair_role n []; ctx = some c; completed = true }, s)
  send_values n c b s (k ∷ queue) =
      let role = chair_role n (k ∷ queue) in
      check (read_public p (some c) k.1) (false, record b { role = role; ctx = some c }, s)
        λ c1.
          check (make_val p (some c1) bufsize s.rng)
            (false, record b { role = role; ctx = some c1 }, s)
            λ r.
              send_values n r.0 b
                (record {
                  rng = r.2;
                  pkts = (PktWrapper.write id junk s.pkts k.0 chair_xi (filled memory r.1)).1;
                })
                queue

  -- `ChairBehavior::on_recv`
  unfoldable pub chair_on_recv :
      ℕ → List (ℕ × List ℕ) → Behavior Mpi Point → World Rng → Pkt → Outcome
  chair_on_recv n queue b s pkt =
      when_inited b.ctx (false, b, s)
        λ c.
          let queue' = if pkt.cmd == node_zi then push (pkt.src, pkt.payload) queue else queue in
          if not (length pkt.payload == bufsize)
          then (true, b, s)
          else if not (pkt.dest == id)
          then (true, b, s)
          else if length queue' == n - 1
          then send_values n c b s queue'
          else (true, record b { role = chair_role n queue' }, s)

  -- `NodeBehavior::init`
  unfoldable pub node_init : Behavior Mpi Point → World Rng → Outcome
  node_init b s = when_inited b.ctx (false, b, s) λ c. (true, b, s)

  -- `NodeBehavior::on_recv` on the chair's public value
  unfoldable pub take_public :
      ℕ → Context Mpi Point → Behavior Mpi Point → World Rng → Pkt → Outcome
  take_public chair c b s pkt =
      check (read_public p (some c) pkt.payload) (false, b, s)
        λ c1.
          check (make_public p (some c1) bufsize s.rng) (false, record b { ctx = some c1 }, s)
            λ r. (
              true,
              record b { ctx = some r.0 },
              record {
                rng = r.2;
                pkts = (PktWrapper.write id junk s.pkts chair node_zi (filled memory r.1)).1;
              },
            )

  -- and on the value that hides the key
  unfoldable pub take_value : Context Mpi Point → Behavior Mpi Point → World Rng → Pkt → Outcome
  unfolding export
  take_value c b s pkt =
      check (import_val p (some c) pkt.payload) (false, b, s)
        λ c1.
          check (calc_key p (some c1) s.rng) (false, record b { ctx = some c1 }, s)
            λ r. export r.0 (record b { ctx = some r.0 }) (record s { rng = r.1 }) true

  -- `NodeBehavior::on_recv`
  unfoldable pub node_on_recv : ℕ → Behavior Mpi Point → World Rng → Pkt → Outcome
  unfolding take_public take_value
  node_on_recv chair b s pkt =
      when_inited b.ctx (false, b, s)
        λ c.
          if not (length pkt.payload == bufsize)
          then (true, b, s)
          else if not (pkt.src == chair)
          then (true, b, s)
          else if pkt.cmd == chair_z0
          then take_public chair c b s pkt
          else if pkt.cmd == chair_xi
          then take_value c b s pkt
          else (true, b, s)

  -- the virtual `init` and `on_recv`
  unfoldable pub init : Role → Behavior Mpi Point → World Rng → Outcome
  init (chair_role n queue) b s = chair_init b s
  init (node_role chair) b s = node_init b s

  unfoldable pub on_recv : Role → Behavior Mpi Point → World Rng → Pkt → Outcome
  on_recv (chair_role n queue) b s pkt = chair_on_recv n queue b s pkt
  on_recv (node_role chair) b s pkt = node_on_recv chair b s pkt
