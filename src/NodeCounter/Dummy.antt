-- ===== src/NodeCounter/Dummy.antt =====
-- Project/libsmoke/libs/sknx/src/shared/knx/nodecounter/dummy.h: nodes announce themselves until a
-- known number of them is found. `id` is `sKConfig.id()`, `n` the template's N.
pub mod Counting
pub mod Countdown
use lib_smoke.Base.{
  ℕ, ◌+◌, ◌-◌, ◌%◌, ◌^◌, List, [], ◌∷◌, Bool, true, false, not, ◌&&◌, ltb, ◌==◌, if◌then◌else◌,
  length,
}
use lib_smoke.Telegram.{Telegram}
use lib_smoke.PktWrapper
use lib_smoke.PktWrapper.{Pkt, PktWrapper}
use lib_smoke.NodeCounter.{
  CounterStatus, counter_offline, counter_counting, counter_completed, NodeCounter,
}
use lib_smoke.NodeCounter.NodeSet.{insert, member}

-- `CMD_NODECOUNTER_THATSME`
abbrev pub thats_me : ℕ
thats_me = 0x10

pub record Dummy : Type 0 where
  pub status : CounterStatus
  pub nodes : List ℕ
  pub cnt : ℕ
  pub loops_remaining : ℕ

-- the constructor
abbrev pub create : Dummy
create = record { status = counter_offline; nodes = []; cnt = 0; loops_remaining = 0 }

unfoldable pub init : ℕ → Dummy → Bool × Dummy
init id s = (true, record s { nodes = insert id []; status = counter_counting })

unfoldable pub shutdown : Dummy → Dummy
shutdown s = record s { status = counter_offline }

abbrev pub is_counting : CounterStatus → Bool
is_counting counter_offline = false
is_counting counter_counting = true
is_counting counter_completed = false

-- The loop over the packets: the nodes found, and the packets that stay in the queue.
unfoldable pub take_in : ℕ → List ℕ → List Pkt → List ℕ × List Pkt
take_in n nodes [] = (nodes, [])
take_in n nodes (p ∷ ps) =
    let found = (p.cmd == thats_me) && (not (member p.src nodes) && ltb (length nodes) n) in
    let rest = take_in n (if found then insert p.src nodes else nodes) ps in
    if ltb (length nodes) n then rest else (nodes, p ∷ ps)

-- the last statement of `update`
unfoldable pub count_down : ℕ → Dummy → Dummy
count_down n s =
    if ltb 0 s.loops_remaining
    then if s.loops_remaining - 1 == 0
      then record s { loops_remaining = s.loops_remaining - 1; status = counter_completed }
      else record s { loops_remaining = s.loops_remaining - 1 }
    else if length s.nodes == n
    then record s { loops_remaining = 64 }
    else s

-- the first statement of `update` once it is counting
unfoldable pub announce : ℕ → (ℕ → Telegram) → Dummy → PktWrapper → PktWrapper
announce id junk s w = if s.cnt % 8 == 0 then (PktWrapper.write_cmd_all id junk w thats_me).1 else w

unfoldable pub update : ℕ → (ℕ → Telegram) → ℕ → Dummy → PktWrapper → Bool × Dummy × PktWrapper
update id junk n s w =
    let w' = announce id junk s w in
    let (nodes, in_queue) = take_in n s.nodes w'.in_queue in
    let s' = record s { cnt = (s.cnt + 1) % 2 ^ 8; nodes = nodes } in
    if not (is_counting s.status)
    then (false, s, w)
    else (true, count_down n s', record w' { in_queue = in_queue })

-- The class behind the interface.
unfoldable pub counter : ℕ → (ℕ → Telegram) → ℕ → NodeCounter Dummy
counter id junk n = record {
  init = init id;
  shutdown = shutdown;
  update = update id junk n;
  status = λ s. s.status;
  nodes = λ s. s.nodes;
}
