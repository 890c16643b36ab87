-- ===== src/PktWrapper/OverTcp.antt =====
-- PKTWrapper over the TCP backend: its loops end, and a packet crosses the connection.
use lib_smoke.Base.{
  ℕ, zero, suc, ◌+◌, ◌^◌, ◌≤◌, ◌<◌, ◌≡◌, ◌≢◌, ap, ap₂, ◌∙◌, refl, arith, List, [], ◌∷◌, ◌++◌,
  Option, none, some, true, false, ◌||◌, ◌⊎◌, ◌==◌, if◌then◌else◌, length,
}
use lib_smoke.Ring.Refine.{contents}
use lib_smoke.Telegram.{Telegram, broadcast, dest, new}
use lib_smoke.Telegram.Wire.{IsWf}
use lib_smoke.MultiRings.Collect.{IsValid}
use lib_smoke.MultiRings.Lookup.{pending, Busy}
use lib_smoke.Backend.{Backend, Select, Recv, Sent}
use lib_smoke.Backend.LinuxTcp
use lib_smoke.Backend.LinuxTcp.{LinuxTcp}
use lib_smoke.Backend.LinuxTcp.Queue.{read-front, read-not_ready, count-length, length-ne_zero}
use lib_smoke.Backend.Framing.Split.{split_all, split-wires, wires, frames_of, AllWf}
use lib_smoke.Backend.Framing.Stream.{
  IsReady, process_all, process_all-split, receive_all, flatten, Short,
}
use lib_smoke.PktWrapper.{PktWrapper, encode, recompose, receive, write, packetize}
use lib_smoke.PktWrapper.Packetize.{
  fragments, fragment_count, packetize-fragments, fragment-IsWf, arrived,
}
use lib_smoke.PktWrapper.Delivery.{arrivals, receive-arrivals}
use lib_smoke.PktWrapper.Update.{recv_all}

module _ (junk₀ : Telegram) (select : Select) (recv : Recv) (sent : Sent) where
  abbrev pub tcp : Backend LinuxTcp
  tcp = LinuxTcp.backend junk₀ select recv sent

  -- Taking in the queue of a ready connection: as many rounds as telegrams.
  recv_all-receive :
      (id : ℕ) (junk : Telegram) (ts : List Telegram) (s : LinuxTcp) (w : PktWrapper)
      → s.ready ≡ true
      → s.pkts ≡ ts
      → recv_all tcp (length ts) id junk s w ≡ some (record s { pkts = [] }, receive id w ts)
  unfolding recv_all receive LinuxTcp.backend
  recv_all-receive id junk [] s w r e = ground arith
  recv_all-receive id junk (t ∷ ts) s w r e =
      let w' = if (dest t == broadcast) || (dest t == id) then recompose id w t else w in
      ground (
        arith,
        read-front s (new id junk) t ts r e,
        count-length s,
        recv_all-receive id junk ts (record s { pkts = ts }) w' r refl,
      )

  -- While the connection is not ready and a telegram is queued, the loop of `update` that takes in
  -- telegrams does not end, however many rounds it is given.
  pub recv_all-stuck :
      (fuel id : ℕ) (junk : Telegram) (s : LinuxTcp) (w : PktWrapper)
      → s.ready ≡ false
      → s.pkts ≢ []
      → recv_all tcp fuel id junk s w ≡ none
  unfolding recv_all LinuxTcp.backend
  recv_all-stuck zero id junk s w r ne = ground (arith, count-length s, length-ne_zero s.pkts ne)
  recv_all-stuck (suc fuel) id junk s w r ne =
      let t = new id junk in
      let w' = if (dest t == broadcast) || (dest t == id) then recompose id w t else w in
      ground (
        arith,
        read-not_ready s t r,
        count-length s,
        length-ne_zero s.pkts ne,
        recv_all-stuck fuel id junk s w' r ne,
      )

-- A stream of whole telegrams, however it is cut into pieces, is queued as those telegrams.
stream_queued :
    (junk : Telegram) (s : LinuxTcp) (ts : List Telegram) (pieces : List (List ℕ))
    → AllWf ts
    → IsReady s.pktbuffer
    → contents s.pktbuffer ≡ []
    → Short pieces
    → flatten pieces ≡ wires ts
    → let r = process_all junk (s.pktbuffer, s.pkts) pieces in
      (r.1 ≡ s.pkts ++ receive_all junk (frames_of ts)) × (contents r.0 ≡ [])
stream_queued junk s ts pieces w rd e h same =
    let p = process_all-split junk s.pktbuffer s.pkts pieces rd h in
    let q = split-wires (suc (length (wires ts))) ts w (omega arith) in
    let all = ap₂ ◌++◌ e same in
    (
      p.2
          ∙ ap (λ l. s.pkts ++ receive_all junk (split_all l).1) all
          ∙ ap (λ (x : List ℕ × List (List ℕ)). s.pkts ++ receive_all junk x.1) q,
      p.1 ∙ ap (λ l. (split_all l).0) all ∙ ap (λ (x : List ℕ × List (List ℕ)). x.0) q,
    )

fragments-AllWf :
    (from to : ℕ) (junk : ℕ → Telegram) (bytes : List ℕ) (n i : ℕ)
    → from < 2 ^ 16
    → to < 2 ^ 16
    → ((i : ℕ) → IsWf (junk i))
    → AllWf (fragments from junk to bytes n i)
fragments-AllWf from to junk bytes zero i hf ht w = tt
fragments-AllWf from to junk bytes (suc n) i hf ht w = (
  fragment-IsWf from (junk i) to bytes i hf ht (w i),
  fragments-AllWf from to junk bytes n (suc i) hf ht w,
)

arrivals-receive_all :
    (from to : ℕ) (junk : ℕ → Telegram) (junk' : Telegram) (bytes : List ℕ) (n i : ℕ)
    → receive_all junk' (frames_of (fragments from junk to bytes n i))
      ≡ arrivals from junk (λ _. junk') to bytes n i
arrivals-receive_all from to junk junk' bytes zero i = refl
arrivals-receive_all from to junk junk' bytes (suc n) i =
    ap (λ l. arrived from (junk i) junk' to bytes i ∷ l)
      (arrivals-receive_all from to junk junk' bytes n (suc i))

-- What a packet is on the wire: the bytes that `write` queues for an empty queue.
abbrev pub sent_stream : ℕ → (ℕ → Telegram) → PktWrapper → ℕ → ℕ → List ℕ → List ℕ
sent_stream from junk w to cmd buf = wires (write from junk w to cmd buf).1.out_queue

-- With 16-bit addresses and a valid table at the receiver: a node with id `from` and nothing in its
-- output queue writes a packet of at most 1021 data bytes
-- to everybody or to the node `id`, with another id. If the bytes of the queued telegrams reach
-- that node's connection in whatever pieces of at most 128 bytes, and the connection is ready and
-- has nothing left over, then the loop of the node's `update` that takes in telegrams ends after as
-- many rounds as there are telegrams and queues exactly that packet: sender, destination, opcode
-- and data. This holds if the node has a ring to spare for `from` and nothing pending from it, and
-- then nothing is pending from it afterwards, and what is pending from others is as before.
pub tcp_delivery :
    (io : Select) (recv : Recv) (sent : Sent) (id from to cmd : ℕ) (buf : List ℕ)
    (junk : ℕ → Telegram) (junk' junk'' : Telegram) (sender w : PktWrapper) (s : LinuxTcp)
    (pieces : List (List ℕ))
    → from < 2 ^ 16
    → to < 2 ^ 16
    → ((i : ℕ) → IsWf (junk i))
    → IsWf junk'
    → sender.out_queue ≡ []
    → IsValid w.buffers
    → from ≢ id
    → (to ≡ broadcast) ⊎ (to ≡ id)
    → length buf + 3 ≤ 1024
    → ¬ Busy from w.buffers.buffers
    → pending from w.buffers.buffers ≡ []
    → s.ready ≡ true
    → s.pkts ≡ []
    → IsReady s.pktbuffer
    → contents s.pktbuffer ≡ []
    → Short pieces
    → flatten pieces ≡ sent_stream from junk sender to cmd buf
    → let (r, ts) = process_all junk' (s.pktbuffer, s.pkts) pieces in
      let s' = record s { pktbuffer = r; pkts = ts } in
      (w' : PktWrapper) × (recv_all (tcp junk' io recv sent) (length ts) id junk'' s' w
        ≡ some (record s' { pkts = [] }, w'))
      × (w'.in_queue
          ≡ w.in_queue ++ (record { cmd = cmd; src = from; dest = to; payload = buf } ∷ []))
      × IsValid w'.buffers
      × ((k : ℕ) → pending k w'.buffers.buffers ≡ pending k w.buffers.buffers)
unfolding write
tcp_delivery io recv sent id from to cmd buf junk junk' junk'' sender w s pieces hf ht wj wj' out v
      ne dst small free empty ready none_queued rd left short same =
    let bytes = encode cmd buf in
    let n = fragment_count bytes in
    let sent_ts = fragments from junk to bytes n 0 in
    let out_eq : (packetize from junk sender to bytes).out_queue ≡ sent_ts =
      ap (λ (x : PktWrapper). x.out_queue) (packetize-fragments from junk sender to bytes)
      ∙ ap (λ l. l ++ sent_ts) out in
    let q =
      stream_queued junk' s sent_ts pieces (fragments-AllWf from to junk bytes n 0 hf ht wj) rd left
        short (same ∙ ap wires out_eq) in
    let arr = arrivals from junk (λ _. junk') to bytes n 0 in
    let ts_eq =
      q.0
      ∙ (ap (λ l. l ++ receive_all junk' (frames_of sent_ts)) none_queued
          ∙ arrivals-receive_all from to junk junk' bytes n 0) in
    let d =
      receive-arrivals id w junk (λ _. junk') from to cmd buf hf ht wj (λ _. wj') v ne dst small
        free empty in
    let (r, ts) = process_all junk' (s.pktbuffer, s.pkts) pieces in
    let s' : LinuxTcp = record s { pktbuffer = r; pkts = ts } in
    let taken : LinuxTcp = record s' { pkts = [] } in
    (
      receive id w arr,
      recv_all-receive junk' io recv sent id junk'' ts s' w ready refl
          ∙ ap {B = Option (LinuxTcp × PktWrapper)} (λ l. some (taken, receive id w l)) ts_eq,
      d.0,
      d.1,
      d.2,
    )
