-- ===== src/PktWrapper.antt =====
-- Project/libsmoke/libs/sknx/src/shared/knx/pktwrapper.h: packets cut into telegrams and put
-- together again. `id` is `sKConfig.id()`, `junk` what the memory of a new telegram holds.
pub mod Parse
pub mod Extract
pub mod Recompose
pub mod Packetize
pub mod Delivery
pub mod Update
pub mod OverTcp
pub mod Foreign
mod Tests
use lib_smoke.Base.{
  ℕ, zero, suc, ◌+◌, ◌-◌, ◌*◌, ◌/◌, ◌%◌, ◌^◌, List, [], ◌∷◌, ◌++◌, Option, none, some, Bool, true,
  false, not, ◌||◌, ltb, ◌==◌, if◌then◌else◌, length, take, drop, nth, replicate,
}
use lib_smoke.Ring
use lib_smoke.Ring.{RingBuffer}
use lib_smoke.Telegram
use lib_smoke.Telegram.TgSize
use lib_smoke.Telegram.Endian.{to_big_endian_16}
use lib_smoke.Telegram.{
  Telegram, Config, normal, individual, group, broadcast, new_config, src, dest, body_size, check,
}
use lib_smoke.MultiRings
use lib_smoke.MultiRings.{MultiRings, Got, ring, null, unfinished, slot, put, create_rings}

-- `pkt_t`
pub record Pkt : Type 0 where
  pub cmd : ℕ
  pub src : ℕ
  pub dest : ℕ
  pub payload : List ℕ

pub record PktWrapper : Type 0 where
  pub buffers : MultiRings
  pub out_queue : List Telegram
  pub in_queue : List Pkt

-- the constructor
unfoldable pub create : ℕ → PktWrapper
create max_clients = record { buffers = create_rings max_clients; out_queue = []; in_queue = [] }

-- One telegram of `_packetize`: the `i`-th 15 bytes of `buf`.
unfoldable pub fragment : ℕ → Telegram → ℕ → List ℕ → ℕ → Telegram
fragment id junk dest buf i =
    let dtype = if dest == broadcast then group else individual in
    let config : Config = record {
      dest = dest;
      priority = normal;
      dtype = dtype;
      routing_cnt = 0;
    } in
    let left = length buf - TgSize.payload * i in
    let sz = if ltb left TgSize.payload then left else TgSize.payload in
    (Telegram.write (new_config id junk config) (take sz (drop (i * TgSize.payload) buf))).1

-- the `for` loop from `i` on, `n` rounds
unfoldable pub packetize_from :
    ℕ → (ℕ → Telegram) → ℕ → List ℕ → ℕ → ℕ → List Telegram → List Telegram
packetize_from id junk dest buf zero i out_queue = out_queue
packetize_from id junk dest buf (suc n) i out_queue =
    packetize_from id junk dest buf n (suc i) (out_queue ++ (fragment id (junk i) dest buf i ∷ []))

-- `_packetize`
unfoldable pub packetize : ℕ → (ℕ → Telegram) → PktWrapper → ℕ → List ℕ → PktWrapper
packetize id junk w dest buf =
    let len = length buf in
    let count = len / TgSize.payload + (if ltb 0 (len % TgSize.payload) then 1 else 0) in
    record w { out_queue = packetize_from id junk dest buf count 0 w.out_queue }

-- The bytes that `write` hands to `_packetize`: opcode, swapped length, data.
unfoldable pub encode : ℕ → List ℕ → List ℕ
encode cmd buf = let size = to_big_endian_16 (length buf) in cmd ∷ (size % 256) ∷ (size / 256) ∷ buf

unfoldable pub write : ℕ → (ℕ → Telegram) → PktWrapper → ℕ → ℕ → List ℕ → Bool × PktWrapper
write id junk w dest cmd buf = (true, packetize id junk w dest (encode cmd buf))

-- the overloads with no data, and to everybody
abbrev pub write_cmd : ℕ → (ℕ → Telegram) → PktWrapper → ℕ → ℕ → Bool × PktWrapper
write_cmd id junk w dest cmd = write id junk w dest cmd []

abbrev pub write_all : ℕ → (ℕ → Telegram) → PktWrapper → ℕ → List ℕ → Bool × PktWrapper
write_all id junk w cmd buf = write id junk w broadcast cmd buf

abbrev pub write_cmd_all : ℕ → (ℕ → Telegram) → PktWrapper → ℕ → Bool × PktWrapper
write_cmd_all id junk w cmd = write_all id junk w cmd []

-- `read`, with the first packet of the queue.
pub read_queue : List Pkt → Option Pkt × List Pkt
read_queue [] = (none, [])
read_queue (p ∷ ps) = (some p, ps)

unfoldable pub read : PktWrapper → Option Pkt × PktWrapper
unfolding read_queue
read w = let (p, in_queue') = read_queue w.in_queue in (p, record w { in_queue = in_queue' })

unfoldable pub count : PktWrapper → ℕ
count w = length w.in_queue

abbrev bytes_or : Option (List ℕ) → List ℕ → List ℕ
bytes_or none d = d
bytes_or (some bytes) d = bytes

-- The `while` loop of `_recompose` on the ring of one sender, and the packets that it pushes. Each
-- round removes three bytes at least, so the ring's size is fuel enough.
unfoldable pub extract : ℕ → ℕ → ℕ → RingBuffer → RingBuffer × List Pkt
extract zero from to r = (r, [])
extract (suc fuel) from to r =
    let hdr = bytes_or (Ring.peek r 3) [] in
    let dsize = to_big_endian_16 (nth hdr 1 + nth hdr 2 * 256) in
    let r' = (Ring.remove r 3).1 in
    let (bytes, r'') = Ring.read r' dsize in
    let packet : Pkt = record {
      cmd = nth hdr 0;
      src = from;
      dest = to;
      payload = bytes_or bytes (replicate dsize 0);
    } in
    let (r''', packets) = extract fuel from to r'' in
    let more : RingBuffer × List Pkt = (r''', packet ∷ packets) in
    if ltb (Ring.size r) 3 || ltb (Ring.size r) (dsize + 3) then (r, []) else more

-- What `_recompose` does with the result of `_buffers.get`.
unfoldable pub recompose_into : PktWrapper → Telegram → Got → PktWrapper
recompose_into w t (ring i m) =
    let r = (Ring.write (slot m i).buf (take (body_size t) t.body)).1 in
    let (r', packets) = extract (suc (Ring.size r)) (src t) (dest t) r in
    record w { buffers = put m i r'; in_queue = w.in_queue ++ packets }
recompose_into w t (null m) = record w { buffers = m }
recompose_into w t unfinished = w

-- `_recompose`
unfoldable pub recompose : ℕ → PktWrapper → Telegram → PktWrapper
unfolding recompose_into
recompose id w t =
    if src t == id
    then w
    else if not (check t)
    then w
    else recompose_into w t (MultiRings.get w.buffers (src t))

-- the part of `update` that takes in the telegrams that the backend has
unfoldable pub receive : ℕ → PktWrapper → List Telegram → PktWrapper
receive id w [] = w
receive id w (t ∷ ts) =
    receive id (if (dest t == broadcast) || (dest t == id) then recompose id w t else w) ts
