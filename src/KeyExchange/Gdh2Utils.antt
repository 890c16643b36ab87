-- ===== src/KeyExchange/Gdh2Utils.antt =====
-- Project/libsmoke/libs/sknx/src/shared/knx/crypto/gdh2_utils.h: what the first, the last and the other
-- nodes do in GDH2. `id` and `junk` are as in Bd2Utils. What a call of the library has written when it
-- fails is not modelled: SKNX shuts the exchange down then.
use lib_smoke.Base.{
  ℕ, ◌+◌, ◌*◌, List, [], Option, none, some, Bool, true, false, not, ◌==◌, if◌then◌else◌, length,
}
use lib_smoke.Telegram.{Telegram}
use lib_smoke.PktWrapper
use lib_smoke.PktWrapper.{Pkt, PktWrapper}
use lib_smoke.Sban.{check, Polarssl, Arithmetic}
use lib_smoke.Sban.Util.{Curve}
use lib_smoke.Sban.Gdh2 as Library
use lib_smoke.Sban.Gdh2.{Context, make_firstval, make_val, compute_key, export_key}
use lib_smoke.KeyExchange.Neighbours.{Network}
use lib_smoke.KeyExchange.Bd2Utils.{World, when_inited}

-- `GDH2_BUFSIZE`
abbrev pub bufsize : ℕ
bufsize = 66

-- the opcodes
abbrev pub node_val : ℕ
node_val = 0x25

abbrev pub last_val : ℕ
last_val = 0x26

-- which of the three classes an object is of
pub data Place : Type 0 where
  first_node last_node simple_node : Place

-- The members of `Behavior`, and `net`; the context is there when `_inited` is set. `_tmpbuf` is what
-- the library has written.
pub record Behavior (Mpi : Type 0) : Type 0 where
  pub place : Place
  pub net : Network
  pub keylen : ℕ
  pub key : List ℕ
  pub tmpbuflen : ℕ
  pub completed : Bool
  pub ctx : Option (Context Mpi)

module _ {Mpi Point Rng : Type 0} (p : Polarssl Mpi Point Rng) (q : Arithmetic Mpi Point)
    (k : Curve Mpi Point Rng) (id : ℕ) (junk : ℕ → Telegram) where
  abbrev pub Outcome : Type 0
  Outcome = Bool × Behavior Mpi × World Rng

  -- the constructors; `POLARSSL_ECP_DP_SECP256R1` is 3
  unfoldable pub create : Place → Network → List ℕ → World Rng → Behavior Mpi × World Rng
  create place net nodes s =
      let b : Behavior Mpi = record {
        place = place;
        net = net;
        keylen = 0;
        key = [];
        tmpbuflen = bufsize * (length nodes + 1);
        completed = false;
        ctx = none;
      } in
      let blank : Context Mpi = record { priv = p.zero_mpi; key = p.zero_mpi; n = 0 } in
      check (Library.init p q k (some blank) 3 (length nodes) s.rng) (b, s)
        λ r. (record b { ctx = some r.0 }, record s { rng = r.1 })

  -- `FirstNodeBehavior::init`
  unfoldable pub first_init : Behavior Mpi → World Rng → Outcome
  first_init b s =
      when_inited b.ctx (false, b, s)
        λ c.
          check (make_firstval p q k (some c) b.tmpbuflen s.rng) (false, b, s)
            λ r. (
              true,
              b,
              record {
                rng = r.1;
                pkts = (PktWrapper.write id junk s.pkts b.net.next node_val r.0).1;
              },
            )

  -- the call of `gdh2_compute_key`, and what follows it
  unfoldable pub take_key : Context Mpi → Behavior Mpi → World Rng → Pkt → Outcome
  take_key c b s pkt =
      check (compute_key p q k (some c) b.net.pos pkt.payload (length pkt.payload) bufsize s.rng)
        (false, b, s)
        λ r. (
          true,
          record b { ctx = some r.0; keylen = r.1; key = r.2; completed = true },
          record s { rng = r.3 },
        )

  -- `FirstNodeBehavior::on_recv`
  unfoldable pub first_on_recv : Behavior Mpi → World Rng → Pkt → Outcome
  unfolding take_key
  first_on_recv b s pkt =
      when_inited b.ctx (false, b, s)
        λ c.
          if not (pkt.src == b.net.last)
          then (true, b, s)
          else if pkt.cmd == last_val
          then take_key c b s pkt
          else (true, b, s)

  -- `LastNodeBehavior::on_recv` on the value of the node before it
  unfoldable pub send_last : Context Mpi → Behavior Mpi → World Rng → Pkt → Outcome
  send_last c b s pkt =
      check (make_val p q k (some c) b.net.pos pkt.payload (length pkt.payload) b.tmpbuflen s.rng)
        (false, b, s)
        λ r.
          let b1 = record b { ctx = some r.0 } in
          let s1 : World Rng = record {
            rng = r.2;
            pkts = (PktWrapper.write_all id junk s.pkts last_val r.1).1;
          } in
          check (export_key p q k (some r.0) bufsize) (false, b1, s1)
            λ w. (true, record b1 { keylen = w.0; key = w.1; completed = true }, s1)

  unfoldable pub last_on_recv : Behavior Mpi → World Rng → Pkt → Outcome
  unfolding send_last
  last_on_recv b s pkt =
      when_inited b.ctx (false, b, s)
        λ c.
          if not (pkt.src == b.net.prev)
          then (true, b, s)
          else if pkt.cmd == node_val
          then send_last c b s pkt
          else (true, b, s)

  -- `SimpleNodeBehavior::on_recv` on the value of the node before it
  unfoldable pub send_val : Context Mpi → Behavior Mpi → World Rng → Pkt → Outcome
  send_val c b s pkt =
      check (make_val p q k (some c) b.net.pos pkt.payload (length pkt.payload) b.tmpbuflen s.rng)
        (false, b, s)
        λ r. (
          true,
          record b { ctx = some r.0 },
          record { rng = r.2; pkts = (PktWrapper.write id junk s.pkts b.net.next node_val r.1).1 },
        )

  unfoldable pub simple_on_recv : Behavior Mpi → World Rng → Pkt → Outcome
  unfolding send_val take_key
  simple_on_recv b s pkt =
      when_inited b.ctx (false, b, s)
        λ c.
          if pkt.cmd == node_val
          then (if pkt.src == b.net.prev then send_val c b s pkt else (true, b, s))
          else if pkt.cmd == last_val
          then (if pkt.src == b.net.last then take_key c b s pkt else (true, b, s))
          else (true, b, s)

  -- `init` of the other two classes
  unfoldable pub other_init : Behavior Mpi → World Rng → Outcome
  other_init b s = when_inited b.ctx (false, b, s) λ c. (true, b, s)

  -- the virtual `init` and `on_recv`
  unfoldable pub init : Place → Behavior Mpi → World Rng → Outcome
  init first_node b s = first_init b s
  init last_node b s = other_init b s
  init simple_node b s = other_init b s

  unfoldable pub on_recv : Place → Behavior Mpi → World Rng → Pkt → Outcome
  on_recv first_node b s pkt = first_on_recv b s pkt
  on_recv last_node b s pkt = last_on_recv b s pkt
  on_recv simple_node b s pkt = simple_on_recv b s pkt
