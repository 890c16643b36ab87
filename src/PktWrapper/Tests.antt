-- ===== src/PktWrapper/Tests.antt =====
-- Packets that cross: node 1 writes to node 2.
use lib_smoke.Base.{
  ℕ, ◌≡◌, ◌≢◌, ◌++◌, refl, arith, List, [], ◌∷◌, none, some, true, false, ◌-◌, length, inr,
  replicate, take, drop,
}
use lib_smoke.Ring
use lib_smoke.Ring.Bounds
use lib_smoke.Ring.Refine.{contents}
use lib_smoke.Telegram.{Telegram, broadcast, src, dest, check, checksum}
use lib_smoke.Telegram.Endian.{to_big_endian_16}
use lib_smoke.Telegram.Xor.{xor_bytes}
use lib_smoke.Telegram.Wire.{IsWf}
use lib_smoke.MultiRings.{create_rings}
use lib_smoke.MultiRings.Slots.{find}
use lib_smoke.MultiRings.Collect.{IsValid}
use lib_smoke.MultiRings.Lookup.{pending, Busy}
use lib_smoke.MultiRings.Put.{create_rings-IsValid}
use lib_smoke.Backend.{Backend, readable, recv_failed, sent_bytes}
use lib_smoke.Backend.LinuxTcp.{LinuxTcp}
use lib_smoke.Backend.Framing.Stream.{IsReady, process_all, Short, flatten}
use lib_smoke.PktWrapper
use lib_smoke.PktWrapper.{
  Pkt, PktWrapper, packetize, packetize_from, create, encode, recompose, receive, fragment,
}
use lib_smoke.PktWrapper.Recompose.{Delivers, recompose-Delivers}
use lib_smoke.PktWrapper.Delivery.Packet.{crossed, Received, write-receive}
use lib_smoke.PktWrapper.Update
use lib_smoke.PktWrapper.Update.{recv_all}
use lib_smoke.PktWrapper.Foreign.{AllForeign, update-AllForeign}
use lib_smoke.PktWrapper.OverTcp.{tcp, recv_all-stuck, sent_stream, tcp_delivery}

abbrev blank : Telegram
blank = record {
  hdr_ctrl = 0;
  hdr_src = 0;
  hdr_dest = 0;
  hdr_size = 0;
  hdr_routing = 0;
  hdr_group = 0;
  body = replicate 16 0;
}

blank-IsWf : IsWf blank
blank-IsWf = omega arith

abbrev receiver : PktWrapper
receiver = record { buffers = create_rings 4; out_queue = []; in_queue = [] }

abbrev twenty : List ℕ
twenty = replicate 20 7

receiver-not_Busy : (key : ℕ) → ¬ Busy key receiver.buffers.buffers
unfolding create_rings
receiver-not_Busy key b = ground (arith, b.0.0)

receiver-pending : pending 1 receiver.buffers.buffers ≡ []
unfolding create_rings find
receiver-pending = refl

-- a node that has a telegram to send already
abbrev writer : PktWrapper
writer = record receiver { out_queue = blank ∷ [] }

write-receive_example :
    (ts : List Telegram) × ((PktWrapper.write 1 (λ _. blank) writer 2 0x20 twenty).1.out_queue
      ≡ writer.out_queue ++ ts)
    × Received receiver
        (record { cmd = 0x20; src = 1; dest = 2; payload = twenty })
        (receive 2 receiver (crossed (λ _. blank) 0 ts))
write-receive_example =
    write-receive 2 writer receiver (λ _. blank) (λ _. blank) 1 2 0x20 twenty (omega arith)
      (omega arith) (λ _. blank-IsWf) (λ _. blank-IsWf) (create_rings-IsValid 4 (omega arith))
      (omega arith) (inr refl) (omega arith) (receiver-not_Busy 1) receiver-pending

abbrev connection : LinuxTcp
connection = record {
  ready = true;
  pkts = [];
  pktbuffer = Ring.create 256;
  socket = some 3;
  log = [];
}

connection-IsReady : IsReady connection.pktbuffer
unfolding Ring.create
connection-IsReady = record {
  valid = Bounds.create-IsValid 256 (omega arith) (omega arith);
  bufsize = refl;
  incomplete = ground arith;
}

connection-empty : contents connection.pktbuffer ≡ []
unfolding Ring.create
connection-empty = refl

abbrev sender : PktWrapper
sender = record receiver { out_queue = [] }

-- the telegram of the packet with the two bytes 5 and 6
abbrev pieces : List (List ℕ)
pieces =
    let stream = sent_stream 1 (λ _. blank) sender 2 0x20 (5 ∷ 6 ∷ []) in
    take 3 stream ∷ drop 3 stream ∷ []

pieces-Short : Short pieces
unfolding PktWrapper.write packetize packetize_from encode fragment PktWrapper.Telegram.write
pieces-Short = (omega arith, (omega arith, tt))

pieces-flatten : flatten pieces ≡ sent_stream 1 (λ _. blank) sender 2 0x20 (5 ∷ 6 ∷ [])
unfolding PktWrapper.write packetize packetize_from encode fragment PktWrapper.Telegram.write
pieces-flatten = refl

tcp_delivery_example :
    let (r, ts) = process_all blank (connection.pktbuffer, connection.pkts) pieces in
    let s' = record connection { pktbuffer = r; pkts = ts } in
    (w' : PktWrapper) × (recv_all
        (tcp blank readable recv_failed (sent_bytes 0))
        (length ts)
        2
        blank
        s'
        receiver
      ≡ some (record s' { pkts = [] }, w'))
    × (w'.in_queue
        ≡ receiver.in_queue
          ++ (record { cmd = 0x20; src = 1; dest = 2; payload = 5 ∷ 6 ∷ [] } ∷ []))
    × IsValid w'.buffers
    × ((k : ℕ) → pending k w'.buffers.buffers ≡ pending k receiver.buffers.buffers)
tcp_delivery_example =
    tcp_delivery readable recv_failed (sent_bytes 0) 2 1 2 0x20 (5 ∷ 6 ∷ []) (λ _. blank) blank
      blank sender receiver connection pieces (omega arith) (omega arith) (λ _. blank-IsWf)
      blank-IsWf refl (create_rings-IsValid 4 (omega arith)) (omega arith) (inr refl) (omega arith)
      (receiver-not_Busy 1) receiver-pending refl refl connection-IsReady connection-empty
      pieces-Short pieces-flatten

recv_all-stuck_example :
    recv_all
      (tcp blank readable recv_failed (sent_bytes 0))
      1000
      2
      blank
      (record connection { ready = false; pkts = blank ∷ [] })
      receiver
    ≡ none
recv_all-stuck_example =
    recv_all-stuck blank readable recv_failed (sent_bytes 0) 1000 2 blank
      (record connection { ready = false; pkts = blank ∷ [] }) receiver refl
      (λ e. ground (arith, e))

-- the telegram that carries a packet without data from node 1
abbrev signal : Telegram
signal = record blank {
  hdr_ctrl = 0xbc;
  hdr_src = 0x0100;
  hdr_size = 3;
  body = 0x20 ∷ 0 ∷ 0 ∷ 0x61 ∷ replicate 12 0;
}

signal-IsWf : IsWf signal
signal-IsWf = omega arith

signal-src : src signal ≢ 2
unfolding to_big_endian_16
signal-src = omega arith

signal-check : check signal ≡ true
unfolding xor_bytes checksum check
signal-check = refl

recompose-Delivers_example : Delivers receiver signal (recompose 2 receiver signal)
recompose-Delivers_example =
    recompose-Delivers 2 receiver signal signal-IsWf (create_rings-IsValid 4 (omega arith))
      signal-src signal-check

-- a backend that has received the telegram as many times as its state says
abbrev signals : Backend ℕ
signals = record {
  update = λ s. s;
  broadcast = λ s t. s;
  count = λ s. s;
  read = λ s t. (signal, s - 1);
  must_update = λ s. false;
}

signals-update : Update.update signals 1 2 blank 1 receiver ≡ some (0, recompose 2 receiver signal)
unfolding Update.update Update.send_all recv_all to_big_endian_16
signals-update = refl

update-AllForeign_example : AllForeign 2 (recompose 2 receiver signal).in_queue
update-AllForeign_example =
    update-AllForeign signals 1 2 blank 1 0 receiver (recompose 2 receiver signal) tt signals-update
