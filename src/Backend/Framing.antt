-- ===== src/Backend/Framing.antt =====
-- `_process_packet` of Project/libsmoke/libs/sknx/src/shared/knx/backend/linux-tcp.h, which
-- linux-uart.h repeats word for word: a byte stream is cut into telegrams.
pub mod Split
pub mod Stream
use lib_smoke.Base.{
  ℕ, zero, suc, ◌+◌, ◌%◌, ◌^◌, List, [], ◌∷◌, ◌++◌, Option, none, some, ◌||◌, ltb, ◌==◌,
  if◌then◌else◌, length, nth,
}
use lib_smoke.Ring
use lib_smoke.Ring.{RingBuffer}
use lib_smoke.Telegram.{Telegram, raw, of_raw}
use lib_smoke.Telegram.TgSize
use lib_smoke.Telegram.Wire.{received}

abbrev pub bytes_or_none : Option (List ℕ) → List ℕ
bytes_or_none none = []
bytes_or_none (some bytes) = bytes

-- The loop: what stays in the ring, and the telegrams that it pushes; `junk` is what the memory of
-- `telegram pkt` holds. A round removes seven bytes at least.
unfoldable pub cut : ℕ → Telegram → RingBuffer → RingBuffer × List Telegram
cut zero junk r = (r, [])
cut (suc fuel) junk r =
    let hdr = bytes_or_none (Ring.peek r TgSize.hdr) in
    let dsize = TgSize.hdr + 1 + nth hdr 5 % 2 ^ 4 in
    let (bytes, r') = Ring.read r dsize in
    let (r'', telegrams) = cut fuel junk r' in
    let more : RingBuffer × List Telegram =
      (r'', received junk (bytes_or_none bytes) ∷ telegrams) in
    if ltb (Ring.size r) (TgSize.hdr + 1) || ltb (Ring.size r) dsize then (r, []) else more

unfoldable pub process_packet :
    Telegram → RingBuffer × List Telegram → List ℕ → RingBuffer × List Telegram
process_packet junk (r, pkts) buf =
    if length buf == 0
    then (r, pkts)
    else let r' = (Ring.write r buf).1 in
      let (r'', telegrams) = cut (suc (Ring.size r')) junk r' in (r'', pkts ++ telegrams)
