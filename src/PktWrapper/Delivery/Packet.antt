-- ===== src/PktWrapper/Delivery/Packet.antt =====
-- A packet from the sender's `write` to the receiver's queue, over any backend that keeps the order.
use lib_smoke.Base.{
  ℕ, zero, suc, ◌+◌, ◌^◌, ◌≤◌, ◌<◌, ◌≡◌, ◌≢◌, ap, subst, sym, refl, List, [], ◌∷◌, ◌++◌, ◌⊎◌,
  length,
}
use lib_smoke.Telegram.{Telegram, broadcast}
use lib_smoke.Telegram.Wire.{IsWf, wire, received}
use lib_smoke.MultiRings.Collect.{IsValid}
use lib_smoke.MultiRings.Lookup.{pending, Busy}
use lib_smoke.PktWrapper.{Pkt, PktWrapper, encode, write, receive}
use lib_smoke.PktWrapper.Packetize.{fragments, fragment_count, packetize-fragments}
use lib_smoke.PktWrapper.Delivery.{arrivals, receive-arrivals}

-- Telegrams that were sent, as a receiver reads them from their bytes: the `i`-th into memory that
-- held `junk i`.
abbrev pub crossed : (ℕ → Telegram) → ℕ → List Telegram → List Telegram
crossed junk i [] = []
crossed junk i (t ∷ ts) = received (junk i) (wire t) ∷ crossed junk (suc i) ts

crossed-fragments :
    (from to : ℕ) (junk junk' : ℕ → Telegram) (bytes : List ℕ) (n i : ℕ)
    → crossed junk' i (fragments from junk to bytes n i) ≡ arrivals from junk junk' to bytes n i
crossed-fragments from to junk junk' bytes zero i = refl
crossed-fragments from to junk junk' bytes (suc n) i =
    ap (λ ts. crossed junk' i (fragments from junk to bytes 1 i) ++ ts)
      (crossed-fragments from to junk junk' bytes n (suc i))

-- what the receiver `w` of the packet is afterwards
abbrev pub Received : PktWrapper → Pkt → PktWrapper → Type 0
Received w packet w' =
    (w'.in_queue ≡ w.in_queue ++ (packet ∷ []))
    × IsValid w'.buffers
    × ((k : ℕ) → pending k w'.buffers.buffers ≡ pending k w.buffers.buffers)

-- With 16-bit addresses and a valid table at the receiver: a node with id `from` writes a packet of at
-- most 1021 data bytes to everybody or to the node `id`, with another id. Then the node puts some
-- telegrams behind those in its output queue; and if these arrive, in order, at the node `id`, which
-- has nothing pending from `from` and a ring to spare for it, then that node queues exactly this
-- packet, with the sender's id, the destination, the opcode and the data, behind what it had queued;
-- it ends with nothing pending from the sender, and with the pending bytes of all others as they were.
pub write-receive :
    (id : ℕ) (sender w : PktWrapper) (junk junk' : ℕ → Telegram) (from to cmd : ℕ) (buf : List ℕ)
    → from < 2 ^ 16
    → to < 2 ^ 16
    → ((i : ℕ) → IsWf (junk i))
    → ((i : ℕ) → IsWf (junk' i))
    → IsValid w.buffers
    → from ≢ id
    → (to ≡ broadcast) ⊎ (to ≡ id)
    → length buf + 3 ≤ 1024
    → ¬ Busy from w.buffers.buffers
    → pending from w.buffers.buffers ≡ []
    → (ts : List Telegram) × ((write from junk sender to cmd buf).1.out_queue
        ≡ sender.out_queue ++ ts)
      × Received w
          (record { cmd = cmd; src = from; dest = to; payload = buf })
          (receive id w (crossed junk' 0 ts))
unfolding write
write-receive id sender w junk junk' from to cmd buf hf ht wj wj' v other dst small free empty =
    let bytes = encode cmd buf in
    let n = fragment_count bytes in
    let packet : Pkt = record { cmd = cmd; src = from; dest = to; payload = buf } in
    (
      fragments from junk to bytes n 0,
      ap (λ (x : PktWrapper). x.out_queue) (packetize-fragments from junk sender to bytes),
      subst (λ ts. Received w packet (receive id w ts))
          (sym (crossed-fragments from to junk junk' bytes n 0))
          (receive-arrivals id w junk junk' from to cmd buf hf ht wj wj' v other dst small free
            empty),
    )
