-- ===== src/Backend/LinuxTcp.antt =====
-- Project/libsmoke/libs/sknx/src/shared/knx/backend/linux-tcp.h: telegrams over a TCP connection.
pub mod Queue
use lib_smoke.Base.{
  ℕ, List, [], ◌∷◌, ◌++◌, Option, none, some, Bool, true, false, not, ◌==◌, if◌then◌else◌, length,
}
use lib_smoke.Ring
use lib_smoke.Ring.{RingBuffer}
use lib_smoke.Telegram.{Telegram}
use lib_smoke.Telegram.Wire.{wire}
use lib_smoke.Backend.{
  Select, select_failed, timed_out, readable, Recv, recv_failed, recv_bytes, Sent, Effect, closes,
  sends, is_zero, as_bool, Backend,
}
use lib_smoke.Backend.Framing.{process_packet}

pub record LinuxTcp : Type 0 where
  pub ready : Bool
  pub pkts : List Telegram
  pub pktbuffer : RingBuffer
  pub socket : Option ℕ
  pub log : List Effect

-- the constructor
unfoldable pub create : LinuxTcp
create = record { ready = false; pkts = []; pktbuffer = Ring.create 256; socket = some 0; log = [] }

-- `opened` is what `socket` returns (`none` for -1), `connected` whether `connect` returns 0.
unfoldable pub init : Option ℕ → Bool → LinuxTcp → Bool × LinuxTcp
init none connected s = if s.ready then (false, s) else (false, record s { socket = none })
init (some fd) connected s =
    if s.ready
    then (false, s)
    else if not connected
    then (false, record s { socket = some fd; log = s.log ++ (closes (some fd) ∷ []) })
    else (true, record s { socket = some fd; ready = true })

-- `result` is what `send` returns.
unfoldable pub broadcast : Sent → LinuxTcp → Telegram → Bool × LinuxTcp
broadcast result s t =
    if not s.ready
    then (false, s)
    else (as_bool result, record s { log = s.log ++ (sends s.socket (wire t) ∷ []) })

-- the front of `_pkts` and the rest, `none` for an empty queue
abbrev pub front : List Telegram → Option (Telegram × List Telegram)
front [] = none
front (t ∷ ts) = some (t, ts)

-- The telegram that is read, or `old` as it was.
unfoldable pub read : LinuxTcp → Telegram → Bool × Telegram × LinuxTcp
read s old = if not s.ready then (false, old, s) else elim (front s.pkts) [
  | none ↦ (false, old, s)
  | some (t, rest) ↦ (true, t, record s { pkts = rest })
]

unfoldable pub pop : LinuxTcp → LinuxTcp
pop s = elim (front s.pkts) [ none ↦ s | some (t, rest) ↦ record s { pkts = rest } ]

unfoldable pub count : LinuxTcp → ℕ
count s = length s.pkts

unfoldable pub shutdown : LinuxTcp → LinuxTcp
shutdown s =
    let s' = record s { ready = false } in
    if is_zero s.socket then s' else record s' { log = s.log ++ (closes s.socket ∷ []) }

unfoldable pub must_update : LinuxTcp → Bool
must_update s = false

-- what `update` does once the socket is readable
unfoldable pub receive : Telegram → Recv → LinuxTcp → Bool × LinuxTcp
receive junk recv_failed s = (false, s)
receive junk (recv_bytes bytes) s =
    let (r, pkts') = process_packet junk (s.pktbuffer, s.pkts) bytes in
    (true, record s { pktbuffer = r; pkts = pkts' })

unfoldable pub update : Telegram → Select → Recv → LinuxTcp → Bool × LinuxTcp
unfolding receive
update junk select_failed recv s = (false, s)
update junk timed_out recv s = if not s.ready then (false, s) else (true, s)
update junk readable recv s = if not s.ready then (false, s) else receive junk recv s

-- The class behind the interface, for given results of the system calls.
unfoldable pub backend : Telegram → Select → Recv → Sent → Backend LinuxTcp
unfolding update broadcast read count must_update
backend junk select recv sent = record {
  update = λ s. (update junk select recv s).1;
  broadcast = λ s t. (broadcast sent s t).1;
  count = count;
  read = λ s old. let (done, t, s') = read s old in (t, s');
  must_update = must_update;
}
