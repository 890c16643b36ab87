-- ===== src/Backend/LinuxTpuart/Tests.antt =====
-- A confirmation, an error code and a telegram; a byte that nobody knows; a chip that answers late.
use lib_smoke.Base.{
  ℕ, ◌≡◌, ◌*◌, refl, arith, List, [], ◌∷◌, ◌++◌, none, some, true, replicate, if◌then◌else◌, ◌==◌,
}
use lib_smoke.Base.{false}
use lib_smoke.Ring.{RingBuffer}
use lib_smoke.Ring.Bounds
use lib_smoke.Ring.Refine.{contents}
use lib_smoke.Telegram.{Telegram}
use lib_smoke.Backend.{recv_failed, recv_bytes, Recv}
use lib_smoke.Backend.LinuxTpuart.{Rx, rounds, opcode, unknown}
use lib_smoke.Backend.LinuxTpuart.Items.{
  Item, confirmation, error_code, frame, all_bytes, AllItems, accepted, still_outgoing,
  rounds-AllItems,
}
use lib_smoke.Backend.LinuxTpuart.Stuck.{rounds-unknown}
use lib_smoke.Backend.LinuxTpuart.Init.{reset, answers, reset-answers}

abbrev blank : Telegram
blank = record {
  hdr_ctrl = 0;
  hdr_src = 0;
  hdr_dest = 0;
  hdr_size = 0;
  hdr_routing = 0;
  hdr_group = 0;
  body = replicate 16 0;
}

abbrev telegram : List ℕ
telegram = 0xbc ∷ 1 ∷ 0 ∷ 2 ∷ 0 ∷ 0 ∷ 0x40 ∷ []

abbrev items : List Item
items = confirmation 0x8b ∷ error_code 0x07 ∷ frame telegram ∷ []

abbrev waiting : Rx
waiting = record {
  buffer = record { buf = all_bytes items ++ replicate 247 0; bufsize = 256; pstart = 0; plen = 9 };
  outgoing = true;
  packets = [];
}

waiting-IsValid : Bounds.IsValid waiting.buffer
waiting-IsValid = record {
  storage = refl;
  small = omega arith;
  start_in = omega arith;
  len_in = omega arith;
}

items-AllItems : AllItems items
unfolding opcode
items-AllItems = (refl, (refl, ((refl, refl), tt)))

rounds-AllItems_example :
    (r : RingBuffer) × (rounds 3 9 blank waiting
      ≡ some (record {
        buffer = r;
        outgoing = still_outgoing true items;
        packets = [] ++ accepted 9 blank items;
      }))
    × Bounds.IsValid r
    × (contents r ≡ [])
rounds-AllItems_example = rounds-AllItems 9 blank items waiting waiting-IsValid refl items-AllItems

abbrev lost : Rx
lost = record {
  buffer = record { buf = 0x20 ∷ replicate 255 0; bufsize = 256; pstart = 0; plen = 1 };
  outgoing = false;
  packets = [];
}

lost-IsValid : Bounds.IsValid lost.buffer
lost-IsValid = record {
  storage = refl;
  small = omega arith;
  start_in = omega arith;
  len_in = omega arith;
}

no_opcode : opcode 0x20 ≡ unknown
unfolding opcode
no_opcode = refl

rounds-unknown_example : rounds 1000 9 blank lost ≡ none
rounds-unknown_example = rounds-unknown 1000 9 blank 0x20 [] lost lost-IsValid refl no_opcode

-- the seventh read gives the answer
abbrev late : ℕ → Recv
late k = if k == 6 then recv_bytes (3 ∷ []) else recv_failed

reset-answers_example : (reset (some 3) 5 late 0).0 ≡ answers (5 * 5) late 0
reset-answers_example = reset-answers (some 3) 5 late 0
