-- ===== src/Backend/LinuxTpuart.antt =====
-- Project/libsmoke/libs/sknx/src/shared/knx/backend/linux-tpuart.h: telegrams over a TP-UART, a chip
-- that confirms what it sends and reports errors between the telegrams. `id` is `sKConfig.id()`.
pub mod Items
pub mod Stuck
pub mod Init
mod Tests
use Prim.Native.Nat.{bit_and, bit_or}
use lib_smoke.Base.{
  ℕ, zero, suc, ◌+◌, ◌*◌, ◌/◌, ◌%◌, ◌^◌, List, [], ◌∷◌, ◌++◌, Option, none, some, Bool, true, false,
  not, ◌&&◌, ◌||◌, ltb, ◌==◌, if◌then◌else◌, length, nth,
}
use lib_smoke.Ring
use lib_smoke.Ring.{RingBuffer}
use lib_smoke.Telegram.TgSize
use lib_smoke.Telegram.Endian.{to_big_endian_16}
use lib_smoke.Telegram.{Telegram, src, check}
use lib_smoke.Telegram.Wire.{wire, received}
use lib_smoke.Backend.{
  Select, select_failed, timed_out, readable, Recv, recv_failed, recv_bytes, Effect, closes, sends,
  is_zero, Backend,
}
use lib_smoke.Backend.Framing.{bytes_or_none}

pub record LinuxTpuart : Type 0 where
  pub ready : Bool
  pub output : List Telegram
  pub pkts : List Telegram
  pub pktbuffer : RingBuffer
  pub fd : Option ℕ
  pub is_packet_outgoing : Bool
  pub the_outgoing : Telegram
  pub log : List Effect

-- the constructor, with what `_the_outgoing` holds
unfoldable pub create : Telegram → LinuxTpuart
create junk = record {
  ready = false;
  output = [];
  pkts = [];
  pktbuffer = Ring.create 256;
  fd = some 0;
  is_packet_outgoing = false;
  the_outgoing = junk;
  log = [];
}

unfoldable pub broadcast : LinuxTpuart → Telegram → Bool × LinuxTpuart
broadcast s t =
    if ltb 16 (length s.output)
    then (false, s)
    else (true, record s { output = s.output ++ (t ∷ []) })

-- the front of a queue and the rest, `none` for an empty one
abbrev pub front : List Telegram → Option (Telegram × List Telegram)
front [] = none
front (t ∷ ts) = some (t, ts)

-- The telegram that is read, or `old` as it was.
unfoldable pub read : LinuxTpuart → Telegram → Bool × Telegram × LinuxTpuart
read s old = if not s.ready then (false, old, s) else elim (front s.pkts) [
  | none ↦ (false, old, s)
  | some (t, rest) ↦ (true, t, record s { pkts = rest })
]

unfoldable pub pop : LinuxTpuart → LinuxTpuart
pop s = elim (front s.pkts) [ none ↦ s | some (t, rest) ↦ record s { pkts = rest } ]

unfoldable pub count : LinuxTpuart → ℕ
count s = length s.pkts

unfoldable pub shutdown : LinuxTpuart → LinuxTpuart
shutdown s =
    let s' = record s { ready = false } in
    if is_zero s.fd then s' else record s' { fd = some 0; log = s.log ++ (closes s.fd ∷ []) }

unfoldable pub must_update : LinuxTpuart → Bool
must_update s = ltb 0 (length s.output)

-- The writes of `_send_telegram` for the bytes from index `i` on: a control byte before each, another
-- one before the last.
unfoldable pub send_bytes : Option ℕ → ℕ → List ℕ → List Effect
send_bytes fd i [] = []
send_bytes fd i (b ∷ []) = sends fd (bit_or 0x40 i ∷ []) ∷ sends fd (b ∷ []) ∷ []
send_bytes fd i (b ∷ c ∷ bs) =
    sends fd (bit_or 0x80 i ∷ []) ∷ sends fd (b ∷ []) ∷ send_bytes fd (suc i) (c ∷ bs)

-- `_send_telegram`; its result is not used
unfoldable pub send_telegram : LinuxTpuart → LinuxTpuart
send_telegram s =
    if not s.ready then s else record s { log = s.log ++ send_bytes s.fd 0 (wire s.the_outgoing) }

-- `_process_outgoing`
unfoldable pub process_outgoing : LinuxTpuart → LinuxTpuart
process_outgoing s = if s.is_packet_outgoing then s else elim (front s.output) [
  | none ↦ s
  | some (t, rest) ↦
      send_telegram (record s { the_outgoing = t; is_packet_outgoing = true; output = rest })
]

-- the tests of `_process_packet` on a first byte, in their order
pub data Opcode : Type 0 where
  confirm error data_packet unknown : Opcode

unfoldable pub opcode : ℕ → Opcode
opcode b =
    if bit_and b 0x7f == 0x0b
    then confirm
    else if bit_and b 0x07 == 0x07
    then error
    else if bit_and b 0b11010011 == 0b10010000
    then data_packet
    else unknown

-- what the loop of `_process_packet` changes
pub record Rx : Type 0 where
  pub buffer : RingBuffer
  pub outgoing : Bool
  pub packets : List Telegram

-- a data packet of `dsize` bytes is taken out
abbrev pub take_packet : ℕ → Telegram → ℕ → Rx → Rx
take_packet id junk dsize s =
    let (bytes, r) = Ring.read s.buffer dsize in
    let t = received junk (bytes_or_none bytes) in
    record s {
      buffer = r;
      packets = s.packets ++ (if not (src t == id) && check t then t ∷ [] else []);
    }

-- The loop; `none` if it has not ended after `fuel` rounds.
unfoldable pub rounds : ℕ → ℕ → Telegram → Rx → Option Rx
rounds zero id junk s = if Ring.size s.buffer == 0 then some s else none
rounds (suc fuel) id junk s =
    let b = nth (bytes_or_none (Ring.peek s.buffer 1)) 0 in
    let dsize = TgSize.hdr + 1 + nth (bytes_or_none (Ring.peek s.buffer TgSize.hdr)) 5 % 2 ^ 4 in
    let removed = (Ring.remove s.buffer 1).1 in
    let confirmed = rounds fuel id junk (record s { buffer = removed; outgoing = false }) in
    let skipped = rounds fuel id junk (record s { buffer = removed }) in
    let taken = rounds fuel id junk (take_packet id junk dsize s) in
    let again = rounds fuel id junk s in
    if Ring.size s.buffer == 0 then some s else elim (opcode b) [
      | confirm ↦ confirmed
      | error ↦ skipped
      | data_packet ↦
          if ltb (Ring.size s.buffer) TgSize.hdr || ltb (Ring.size s.buffer) dsize
          then some s
          else taken
      | unknown ↦ again
    ]

-- what the object is after the loop
abbrev pub with_rx : LinuxTpuart → Option Rx → Option LinuxTpuart
with_rx s none = none
with_rx s (some x) =
    some (record s { pktbuffer = x.buffer; is_packet_outgoing = x.outgoing; pkts = x.packets })

unfoldable pub process_packet : ℕ → ℕ → Telegram → LinuxTpuart → List ℕ → Option LinuxTpuart
process_packet fuel id junk s buf =
    if length buf == 0
    then some s
    else with_rx s (
        rounds fuel id junk (record {
          buffer = (Ring.write s.pktbuffer buf).1;
          outgoing = s.is_packet_outgoing;
          packets = s.pkts;
        }))

-- a result of `update`
abbrev pub with_result : Bool → Option LinuxTpuart → Option (Bool × LinuxTpuart)
with_result b none = none
with_result b (some s) = some (b, s)

-- what `update` does once the line is readable
unfoldable pub receive : ℕ → ℕ → Telegram → Recv → LinuxTpuart → Option (Bool × LinuxTpuart)
receive fuel id junk recv_failed s = some (false, s)
receive fuel id junk (recv_bytes bytes) s = with_result true (process_packet fuel id junk s bytes)

-- `update` by what `select` returns
unfoldable pub selected :
    ℕ → ℕ → Telegram → Select → Recv → LinuxTpuart → Option (Bool × LinuxTpuart)
selected fuel id junk select_failed recv s = some (false, s)
selected fuel id junk timed_out recv s = some (true, s)
selected fuel id junk readable recv s = receive fuel id junk recv s

unfoldable pub update : ℕ → ℕ → Telegram → Select → Recv → LinuxTpuart → Option (Bool × LinuxTpuart)
update fuel id junk select recv s =
    if not s.ready then some (false, s) else selected fuel id junk select recv (process_outgoing s)
