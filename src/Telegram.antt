-- ===== src/Telegram.antt =====
-- Project/libsmoke/libs/sknx/src/shared/knx/telegram.h: one KNX telegram, and the byte swap of
-- common.h. The union of header fields and raw bytes is the record of the fields, with `raw` for
-- the byte view: the host is little-endian, and bit-fields fill a byte from its low end.
pub mod TgSize
pub mod Endian
pub mod Xor
pub mod Wire
pub mod Checksum
mod Tests
use Prim.Native.Nat.{bit_and, bit_or, bit_xor}
use lib_smoke.Base.{
  ℕ, ◌+◌, ◌-◌, ◌*◌, ◌/◌, ◌%◌, ◌^◌, List, [], ◌∷◌, ◌++◌, Option, none, some, Bool, true, false, ◌&&◌,
  ltb, ◌==◌, if◌then◌else◌, length, take, drop, set, get_or, replicate, copy_at,
}
use lib_smoke.Telegram.Endian.{to_big_endian_16}
use lib_smoke.Telegram.TgSize
use lib_smoke.Telegram.Xor.{xor_bytes}

-- `telegram::level`
pub data Level : Type 0 where
  system high alarm normal : Level

abbrev pub level_code : Level → ℕ
level_code system = 0
level_code high = 1
level_code alarm = 2
level_code normal = 3

abbrev pub level_of_code : ℕ → Level
level_of_code c =
    if c == 0 then system else if c == 1 then high else if c == 2 then alarm else normal

-- `telegram::dest_type`
pub data DestType : Type 0 where
  individual group : DestType

abbrev pub dest_type_code : DestType → ℕ
dest_type_code individual = 0
dest_type_code group = 1

-- `telegram::address::broadcast`
abbrev pub broadcast : ℕ
broadcast = 0

-- `telegram::config`
pub record Config : Type 0 where
  pub dest : ℕ
  pub priority : Level
  pub dtype : DestType
  pub routing_cnt : ℕ

-- `pkt`: `src` and `dest` hold the swapped 16-bit values, as the source stores them.
pub record Telegram : Type 0 where
  pub hdr_ctrl : ℕ
  pub hdr_src : ℕ
  pub hdr_dest : ℕ
  pub hdr_size : ℕ
  pub hdr_routing : ℕ
  pub hdr_group : ℕ
  pub body : List ℕ

-- `pkt.raw`
abbrev pub raw : Telegram → List ℕ
raw t =
    t.hdr_ctrl
    ∷ (t.hdr_src % 256)
    ∷ (t.hdr_src / 256)
    ∷ (t.hdr_dest % 256)
    ∷ (t.hdr_dest / 256)
    ∷ (t.hdr_size + t.hdr_routing * 16 + t.hdr_group * 128)
    ∷ t.body

-- The fields that raw bytes stand for.
abbrev pub of_raw : List ℕ → Telegram
of_raw (c ∷ s0 ∷ s1 ∷ d0 ∷ d1 ∷ b ∷ body) = record {
  hdr_ctrl = c;
  hdr_src = s0 + s1 * 256;
  hdr_dest = d0 + d1 * 256;
  hdr_size = b % 16;
  hdr_routing = b / 16 % 8;
  hdr_group = b / 128;
  body = body;
}
of_raw bytes = record {
  hdr_ctrl = 0;
  hdr_src = 0;
  hdr_dest = 0;
  hdr_size = 0;
  hdr_routing = 0;
  hdr_group = 0;
  body = replicate 16 0;
}

-- The constructors, on memory that holds `junk`; `id` is `sKConfig.id()`.
abbrev pub new : ℕ → Telegram → Telegram
new id junk = record junk { hdr_src = to_big_endian_16 id }

abbrev pub new_config : ℕ → Telegram → Config → Telegram
new_config id junk c = record junk {
  hdr_ctrl = bit_or 0xb0 (level_code c.priority * 2 ^ 2);
  hdr_src = to_big_endian_16 id;
  hdr_dest = to_big_endian_16 c.dest;
  hdr_group = dest_type_code c.dtype;
  hdr_routing = c.routing_cnt % 2 ^ 3;
}

-- `size()` and `bodysize()`
abbrev pub total_size : Telegram → ℕ
total_size t = TgSize.hdr + t.hdr_size + 1

abbrev pub body_size : Telegram → ℕ
body_size t = t.hdr_size

abbrev pub src : Telegram → ℕ
src t = to_big_endian_16 t.hdr_src

abbrev pub dest : Telegram → ℕ
dest t = to_big_endian_16 t.hdr_dest

abbrev pub priority : Telegram → Level
priority t = level_of_code (bit_and (t.hdr_ctrl / 2 ^ 2) 0x03)

-- `~sum` on a byte
unfoldable pub checksum : Telegram → ℕ
checksum t = 255 - xor_bytes 0 (take (total_size t - 1) (raw t))

unfoldable pub write : Telegram → List ℕ → Bool × Telegram
write t bytes =
    if ltb TgSize.payload (length bytes)
    then (false, t)
    else let t' = record t { body = copy_at t.body 0 bytes; hdr_size = length bytes } in
      (true, record t' { body = set t'.body (length bytes) (checksum t') })

unfoldable pub check : Telegram → Bool
check t =
    (bit_and t.hdr_ctrl 0b11010011 == 0b10010000) && (checksum t == get_or t.body t.hdr_size 0)

-- `read`: what is copied out, `none` where it returns false.
unfoldable pub read : Telegram → ℕ → Option (List ℕ)
read t size = if ltb size t.hdr_size then none else some (take t.hdr_size t.body)
