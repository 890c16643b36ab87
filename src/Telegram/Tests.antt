-- ===== src/Telegram/Tests.antt =====
-- A telegram that is filled, sent and damaged.
use lib_smoke.Base.{◌≡◌, refl, arith, [], ◌∷◌, true, false, take, set, replicate}
use lib_smoke.Telegram.Endian.{to_big_endian_16}
use lib_smoke.Telegram.Xor.{xor_bytes}
use lib_smoke.Telegram.{
  Telegram, Config, high, group, new_config, write, check, checksum, src, dest, priority,
}
use lib_smoke.Telegram.Wire.{IsWf, wire, received, received-written}
use lib_smoke.Telegram.Checksum.{check-set}

abbrev blank : Telegram
blank = record {
  hdr_ctrl = 0;
  hdr_src = 0;
  hdr_dest = 0;
  hdr_size = 0;
  hdr_routing = 0;
  hdr_group = 0;
  body = replicate 16 0;
}

abbrev to_all : Config
to_all = record { dest = 0x0102; priority = high; dtype = group; routing_cnt = 6 }

abbrev sample : Telegram
sample = record blank {
  hdr_ctrl = 0xbc;
  hdr_size = 2;
  hdr_src = 0x0201;
  body = 0x10 ∷ 0x20 ∷ 0x72 ∷ replicate 13 0;
}

blank-IsWf : IsWf blank
blank-IsWf = omega arith

sample-IsWf : IsWf sample
sample-IsWf = omega arith

swapped : to_big_endian_16 0x1234 ≡ 0x3412
unfolding to_big_endian_16
swapped = refl

sample-check : check sample ≡ true
unfolding check checksum xor_bytes
sample-check = refl

received-written_example :
    let t = received sample (wire (write (new_config 0x1234 blank to_all) (1 ∷ 2 ∷ 3 ∷ [])).1) in
    (check t ≡ true)
    × (src t ≡ 0x1234)
    × (dest t ≡ 0x0102)
    × (priority t ≡ high)
    × (t.hdr_size ≡ 3)
    × (take t.hdr_size t.body ≡ 1 ∷ 2 ∷ 3 ∷ [])
received-written_example =
    received-written 0x1234 blank sample to_all (1 ∷ 2 ∷ 3 ∷ []) (omega arith) (omega arith)
      (omega arith) blank-IsWf sample-IsWf

check-set_example : check (record sample { body = set sample.body 1 0x21 }) ≡ false
check-set_example =
    check-set sample 1 0x21 sample-IsWf (omega arith) sample-check (omega arith) (omega arith)
      (omega arith)
