-- ===== src/Sknx/Tests.antt =====
-- A node over a silent bus whose counter and key exchange complete after one update.
use lib_smoke.Base.{ℕ, ◌≡◌, refl, [], some, Option, Bool, true, false, replicate}
use lib_smoke.Telegram.{Telegram}
use lib_smoke.Backend.{Backend}
use lib_smoke.PktWrapper
use lib_smoke.PktWrapper.{PktWrapper}
use lib_smoke.PktWrapper.Update
use lib_smoke.NodeCounter.{
  NodeCounter, CounterStatus, counter_offline, counter_counting, counter_completed,
}
use lib_smoke.KeyExchange.{KeyExchange, KeyStatus, key_offline, key_running, key_completed}
use lib_smoke.Sknx.{
  handshaking, finalizing, online, Sknx, create, init, init_at, update_counter, update_handshaking,
  switch, switch_after, update, get_key,
}
use lib_smoke.Sknx.Machine.{Move, update-Move}
use lib_smoke.Sknx.Keyed.{Reachable, created, inits, updates, get_key-completed}

abbrev blank : Telegram
blank = record {
  hdr_ctrl = 0;
  hdr_src = 0;
  hdr_dest = 0;
  hdr_size = 0;
  hdr_routing = 0;
  hdr_group = 0;
  body = replicate 16 0;
}

abbrev silent : Backend ℕ
silent = record {
  update = λ s. s;
  broadcast = λ s t. s;
  count = λ s. 0;
  read = λ s t. (t, s);
  must_update = λ s. false;
}

abbrev quick_counter : NodeCounter CounterStatus
quick_counter = record {
  init = λ c. (true, counter_counting);
  shutdown = λ c. counter_offline;
  update = λ c w. (true, counter_completed, w);
  status = λ c. c;
  nodes = λ c. [];
}

abbrev quick_key : KeyExchange KeyStatus
quick_key = record {
  init = λ nodes k w. (true, key_running, w);
  shutdown = λ k. key_offline;
  update = λ k w. (true, key_completed, w);
  status = λ k. k;
}

abbrev Node : Type 0
Node = Sknx ℕ CounterStatus KeyStatus

abbrev fresh : Node
fresh = create 0 counter_offline key_offline 2

abbrev started : Node
started = (init silent quick_counter quick_key fresh).1

abbrev counted_all : Node
counted_all = record started { counter = counter_completed }

abbrev shaking : Node
shaking = record started { counter = counter_offline; key = key_running; status = handshaking }

abbrev shaken : Node
shaken = record shaking { key = key_completed }

abbrev keyed : Node
keyed = record shaken { status = finalizing }

abbrev ready : Node
ready = record keyed { status = online }

abbrev run : Node → Option (Bool × Node)
run = update silent quick_counter quick_key 0 1 blank

abbrev Reached : Node → Type 0
Reached = Reachable silent quick_counter quick_key

started-Reachable : Reached started
started-Reachable = inits fresh (created 0 counter_offline key_offline 2)

counted_all-Reachable : Reached counted_all
unfolding init init_at update switch switch_after update_counter Update.update Update.send_all
    Update.recv_all PktWrapper.create
counted_all-Reachable = updates 0 1 blank started counted_all true started-Reachable refl

shaking-Reachable : Reached shaking
unfolding init init_at update switch switch_after update_counter Update.update Update.send_all
    Update.recv_all PktWrapper.create
shaking-Reachable = updates 0 1 blank counted_all shaking true counted_all-Reachable refl

shaken-Reachable : Reached shaken
unfolding init init_at update switch switch_after update_handshaking Update.update Update.send_all
    Update.recv_all PktWrapper.create
shaken-Reachable = updates 0 1 blank shaking shaken true shaking-Reachable refl

keyed-Reachable : Reached keyed
unfolding init init_at update switch switch_after update_handshaking Update.update Update.send_all
    Update.recv_all PktWrapper.create
keyed-Reachable = updates 0 1 blank shaken keyed true shaken-Reachable refl

ready-Reachable : Reached ready
unfolding init init_at update switch switch_after update_handshaking Update.update Update.send_all
    Update.recv_all PktWrapper.create
ready-Reachable = updates 0 1 blank keyed ready false keyed-Reachable refl

has_key : get_key ready ≡ some key_completed
unfolding get_key init
has_key = refl

get_key-completed_example : quick_key.status key_completed ≡ key_completed
get_key-completed_example =
    get_key-completed silent quick_counter quick_key ready key_completed ready-Reachable has_key

ran : run keyed ≡ some (false, ready)
unfolding init init_at update switch switch_after update_handshaking Update.update Update.send_all
    Update.recv_all PktWrapper.create
ran = refl

update-Move_example : Move finalizing online
update-Move_example = update-Move silent quick_counter quick_key 0 1 blank keyed ready false ran
