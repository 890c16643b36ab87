-- ===== src/NodeCounter/Tests.antt =====
-- A counter for two nodes.
use lib_smoke.Base.{ℕ, ◌≤◌, ◌<◌, ◌≡◌, refl, arith, [], ◌∷◌, ◌||◌, length, replicate}
use lib_smoke.Telegram.{Telegram}
use lib_smoke.MultiRings.{create_rings}
use lib_smoke.PktWrapper.{PktWrapper}
use lib_smoke.NodeCounter.{counter_counting, counter_completed}
use lib_smoke.NodeCounter.NodeSet.{insert, member}
use lib_smoke.NodeCounter.Dummy.{Dummy, announce, count_down, take_in, update}
use lib_smoke.NodeCounter.Dummy.Counting.{IsValid, announced, update-IsValid, update-announced}
use lib_smoke.NodeCounter.Dummy.Countdown.{updates, updates_complete}

abbrev blank : Telegram
blank = record {
  hdr_ctrl = 0;
  hdr_src = 0;
  hdr_dest = 0;
  hdr_size = 0;
  hdr_routing = 0;
  hdr_group = 0;
  body = replicate 16 0;
}

-- node 7 announced itself, and node 9 sent something else
abbrev wrapper : PktWrapper
wrapper = record {
  buffers = create_rings 2;
  out_queue = [];
  in_queue =
      record { cmd = 0x10; src = 7; dest = 0; payload = [] }
      ∷ record { cmd = 0x20; src = 9; dest = 0; payload = [] }
      ∷ [];
}

abbrev two : Dummy
two = record { status = counter_counting; nodes = 3 ∷ 7 ∷ []; cnt = 5; loops_remaining = 0 }

abbrev one : Dummy
one = record { status = counter_counting; nodes = 3 ∷ []; cnt = 5; loops_remaining = 0 }

one-IsValid : IsValid 3 3 one.nodes
unfolding member
one-IsValid = record { increasing = (tt, tt); mine = refl; bounded = omega arith }

update-IsValid_example : IsValid 3 3 (update 3 (λ _. blank) 3 one wrapper).1.nodes
update-IsValid_example = update-IsValid 3 (λ _. blank) 3 one wrapper one-IsValid

one-updated : length (update 3 (λ _. blank) 3 one wrapper).1.nodes < 3
unfolding update announce count_down take_in member insert
one-updated = omega arith

update-announced_example :
    let (done, s', w') = update 3 (λ _. blank) 3 one wrapper in
    (w'.in_queue ≡ [])
    × ((k : ℕ) → member k s'.nodes ≡ (member k one.nodes || announced k wrapper.in_queue))
update-announced_example = update-announced 3 (λ _. blank) 3 one wrapper refl one-updated

updates_complete_example :
    let ws = replicate 65 wrapper in
    (length ws ≤ 64 → (updates 3 (λ _. blank) 2 two ws).status ≡ counter_counting)
    × (64 < length ws → (updates 3 (λ _. blank) 2 two ws).status ≡ counter_completed)
updates_complete_example =
    updates_complete 3 (λ _. blank) 2 two (replicate 65 wrapper) refl refl refl
