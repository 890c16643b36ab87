-- ===== src/Telegram/Wire.antt =====
-- What a telegram holds after `write`, and what its receiver reads from the bytes on the wire.
use Prim.Native.Nat.{bit_and, bit_or}
use lib_smoke.Base.{
  ℕ, suc, ◌+◌, ◌-◌, ◌*◌, ◌/◌, ◌%◌, ◌^◌, ◌≤◌, ◌<◌, ◌≡◌, refl, arith, List, [], ◌∷◌, ◌++◌, Bool, true,
  ◌==◌, length, take, drop, copy_at, length-take, length-drop, length-append, take-append_one,
  copy_at-zero, set-copy_at, get_or-middle, take-append_self, append_assoc,
}
use lib_smoke.Telegram.Endian.{to_big_endian_16_twice, to_big_endian_16-lt}
use lib_smoke.Telegram.Xor.{xor_bytes}
use lib_smoke.Telegram.{
  Telegram, Config, Level, system, high, alarm, normal, DestType, individual, group, raw, of_raw,
  new_config, total_size, checksum, write, check, src, dest, priority, level_code, dest_type_code,
}

-- The ranges of the fields.
pub record IsWf (t : Telegram) : Type 0 where
  pub ctrl_byte : t.hdr_ctrl < 256
  pub src_word : t.hdr_src < 2 ^ 16
  pub dest_word : t.hdr_dest < 2 ^ 16
  pub size_bits : t.hdr_size < 16
  pub routing_bits : t.hdr_routing < 8
  pub group_bit : t.hdr_group < 2
  pub body_size : length t.body ≡ 16

-- The bytes that go to the socket: `raw()[0 .. size())`.
abbrev pub wire : Telegram → List ℕ
wire t = take (total_size t) (raw t)

abbrev pub header : Telegram → List ℕ
header t =
    t.hdr_ctrl
    ∷ (t.hdr_src % 256)
    ∷ (t.hdr_src / 256)
    ∷ (t.hdr_dest % 256)
    ∷ (t.hdr_dest / 256)
    ∷ (t.hdr_size + t.hdr_routing * 16 + t.hdr_group * 128)
    ∷ []

pub wire-eq : (t : Telegram) → wire t ≡ header t ++ take (suc t.hdr_size) t.body
wire-eq t =
    let e : 6 + t.hdr_size + 1 ≡ suc (suc (suc (suc (suc (suc (suc t.hdr_size)))))) = omega arith in
    rw e

pub checksum-eq :
    (t : Telegram) → checksum t ≡ 255 - xor_bytes 0 (header t ++ take t.hdr_size t.body)
unfolding checksum
checksum-eq t =
    let e : 6 + t.hdr_size + 1 - 1 ≡ suc (suc (suc (suc (suc (suc t.hdr_size))))) = omega arith in
    rw e

-- Header, bytes, checksum byte, and what stands behind it.
abbrev pub filled : Telegram → List ℕ → List ℕ → Telegram
filled t bytes tail = record t {
  hdr_size = length bytes;
  body =
      bytes
      ++ ((255 - xor_bytes 0 (header (record t { hdr_size = length bytes }) ++ bytes)) ∷ tail);
}

-- The telegram that `write` leaves.
abbrev pub written : Telegram → List ℕ → Telegram
written t bytes = filled t bytes (drop (suc (length bytes)) t.body)

pub write_lem :
    (t : Telegram) (bytes : List ℕ)
    → length bytes ≤ 15
    → length t.body ≡ 16
    → write t bytes ≡ (true, written t bytes)
unfolding write
write_lem t bytes h b =
    let t' = record t { body = copy_at t.body 0 bytes; hdr_size = length bytes } in
    ground (
      arith,
      set-copy_at t.body bytes (checksum t'),
      checksum-eq t',
      copy_at-zero t.body bytes,
      take-append_self bytes (drop (length bytes) t.body),
    )

abbrev pub ctrl_ok : Telegram → Bool
ctrl_ok t = bit_and t.hdr_ctrl 0b11010011 == 0b10010000

pub take-filled :
    (t : Telegram) (bytes tail : List ℕ) → take (length bytes) (filled t bytes tail).body ≡ bytes
take-filled t bytes tail = take-append_self bytes _

pub check-filled :
    (t : Telegram) (bytes tail : List ℕ) → ctrl_ok t ≡ true → check (filled t bytes tail) ≡ true
unfolding check
check-filled t bytes tail h = ground (
  arith,
  checksum-eq (filled t bytes tail),
  take-filled t bytes tail,
  get_or-middle bytes tail
      (255 - xor_bytes 0 (header (record t { hdr_size = length bytes }) ++ bytes)) 0,
)

-- The control byte of the constructor passes the test of `check`, for each priority, and keeps it.
ctrl-new_config : (id : ℕ) (junk : Telegram) (c : Config) → ctrl_ok (new_config id junk c) ≡ true
ctrl-new_config id junk c = go c.priority
  where
    go :
        (l : Level) → (bit_and (bit_or 0xb0 (level_code l * 2 ^ 2)) 0b11010011 == 0b10010000) ≡ true
    go system = refl
    go high = refl
    go alarm = refl
    go normal = refl

priority-new_config :
    (id : ℕ) (junk : Telegram) (c : Config) → priority (new_config id junk c) ≡ c.priority
priority-new_config id junk c = go c.priority
  where
    go : (l : Level) → priority (new_config id junk (record c { priority = l })) ≡ l
    go system = refl
    go high = refl
    go alarm = refl
    go normal = refl

new_config-IsWf :
    (id : ℕ) {junk : Telegram} (c : Config)
    → id < 2 ^ 16
    → c.dest < 2 ^ 16
    → IsWf junk
    → IsWf (new_config id junk c)
new_config-IsWf id {junk} c hi hd w = record {
  ctrl_byte = go c.priority;
  src_word = to_big_endian_16-lt id hi;
  dest_word = to_big_endian_16-lt c.dest hd;
  size_bits = w.size_bits;
  routing_bits = omega arith;
  group_bit = bit c.dtype;
  body_size = w.body_size;
}
  where
    go : (l : Level) → bit_or 0xb0 (level_code l * 2 ^ 2) < 256
    go system = omega arith
    go high = omega arith
    go alarm = omega arith
    go normal = omega arith

    bit : (d : DestType) → dest_type_code d < 2
    bit individual = omega arith
    bit group = omega arith

pub filled-IsWf :
    {t : Telegram} (bytes tail : List ℕ)
    → length bytes ≤ 15
    → length tail ≡ 15 - length bytes
    → IsWf t
    → IsWf (filled t bytes tail)
filled-IsWf {t} bytes tail h e w =
    let sum : ℕ = 255 - xor_bytes 0 (header (record t { hdr_size = length bytes }) ++ bytes) in
    record {
      ctrl_byte = w.ctrl_byte;
      src_word = w.src_word;
      dest_word = w.dest_word;
      size_bits = omega arith;
      routing_bits = w.routing_bits;
      group_bit = w.group_bit;
      body_size = omega (arith, length-append bytes (sum ∷ tail));
    }

-- The telegram that a backend makes of the bytes on the wire, on memory that holds `junk`.
abbrev pub received : Telegram → List ℕ → Telegram
received junk bytes = of_raw (copy_at (raw junk) 0 bytes)

pub received_lem :
    (junk t : Telegram)
    → IsWf junk
    → IsWf t
    → received junk (wire t)
      ≡ record t { body = take (suc t.hdr_size) t.body ++ drop (suc t.hdr_size) junk.body }
received_lem junk t wj w = rw wire-eq (
    ground (
      arith,
      copy_at-zero junk.body (take (suc t.hdr_size) t.body),
      length-take (suc t.hdr_size) t.body,
    ))

pub received-filled :
    (junk t : Telegram) (bytes tail : List ℕ)
    → length bytes ≤ 15
    → length tail ≡ 15 - length bytes
    → IsWf junk
    → IsWf t
    → received junk (wire (filled t bytes tail))
      ≡ filled t bytes (drop (suc (length bytes)) junk.body)
received-filled junk t bytes tail h e wj w =
    let sum : ℕ = 255 - xor_bytes 0 (header (record t { hdr_size = length bytes }) ++ bytes) in
    ground (
      arith,
      received_lem junk (filled t bytes tail) wj (filled-IsWf bytes tail h e w),
      take-append_one bytes tail sum,
      append_assoc bytes (sum ∷ []) (drop (suc (length bytes)) junk.body),
    )

pub received_written-IsWf :
    (id : ℕ) (junk junk' : Telegram) (c : Config) (bytes : List ℕ)
    → id < 2 ^ 16
    → c.dest < 2 ^ 16
    → length bytes ≤ 15
    → IsWf junk
    → IsWf junk'
    → IsWf (received junk' (wire (write (new_config id junk c) bytes).1))
received_written-IsWf id junk junk' c bytes hi hd hb w w' =
    let t = new_config id junk c in
    let wt = new_config-IsWf id c hi hd w in
    rw
      (
        write_lem t bytes hb w.body_size,
        received-filled junk' t bytes (drop (suc (length bytes)) junk.body) hb
            (omega (arith, length-drop (suc (length bytes)) junk.body, w.body_size)) w' wt,
      )
      (filled-IsWf bytes (drop (suc (length bytes)) junk'.body) hb
        (omega (arith, length-drop (suc (length bytes)) junk'.body, w'.body_size)) wt)

-- For 16-bit addresses, a telegram that was built with a configuration, filled with at most 15 bytes and sent over the
-- wire passes the receiver's check, and has the sender's source, destination, priority, size and
-- bytes, whatever well-formed values the memory of either telegram held before.
pub received-written :
    (id : ℕ) (junk junk' : Telegram) (c : Config) (bytes : List ℕ)
    → id < 2 ^ 16
    → c.dest < 2 ^ 16
    → length bytes ≤ 15
    → IsWf junk
    → IsWf junk'
    → let t = received junk' (wire (write (new_config id junk c) bytes).1) in
      (check t ≡ true)
      × (src t ≡ id)
      × (dest t ≡ c.dest)
      × (priority t ≡ c.priority)
      × (t.hdr_size ≡ length bytes)
      × (take t.hdr_size t.body ≡ bytes)
received-written id junk junk' c bytes hi hd hb w w' =
    let t = new_config id junk c in
    rw
      (
        write_lem t bytes hb w.body_size,
        received-filled junk' t bytes (drop (suc (length bytes)) junk.body) hb
            (omega (arith, length-drop (suc (length bytes)) junk.body, w.body_size)) w'
            (new_config-IsWf id c hi hd w),
      )
      (
        check-filled t bytes (drop (suc (length bytes)) junk'.body) (ctrl-new_config id junk c),
        to_big_endian_16_twice id hi,
        to_big_endian_16_twice c.dest hd,
        priority-new_config id junk c,
        refl,
        take-filled t bytes (drop (suc (length bytes)) junk'.body),
      )

pub write-new_config-IsWf :
    (id : ℕ) (junk : Telegram) (c : Config) (bytes : List ℕ)
    → id < 2 ^ 16
    → c.dest < 2 ^ 16
    → length bytes ≤ 15
    → IsWf junk
    → IsWf (write (new_config id junk c) bytes).1
write-new_config-IsWf id junk c bytes hi hd hb w =
    rw (write_lem (new_config id junk c) bytes hb w.body_size) (
      filled-IsWf bytes (drop (suc (length bytes)) junk.body) hb
        (omega (arith, length-drop (suc (length bytes)) junk.body, w.body_size))
        (new_config-IsWf id c hi hd w))
