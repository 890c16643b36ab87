-- ===== src/KeyExchange/Bd2/Tests.antt =====
-- A chair, 3, and a node, 7, over the group of two elements.
use lib_smoke.Base.{ℕ, ◌≡◌, refl, List, [], ◌∷◌, some, Bool, true, false, replicate}
use lib_smoke.Telegram.{Telegram, of_raw}
use lib_smoke.PktWrapper
use lib_smoke.PktWrapper.{PktWrapper, Pkt}
use lib_smoke.Sban.{fail, round_not_completed, opp}
use lib_smoke.Sban.Bd2 as Library
use lib_smoke.Sban.Bd2.{Context}
use lib_smoke.Sban.Toy.{plus, times, toy, toy-Laws, toy-Wire}
use lib_smoke.KeyExchange.{key_running}
use lib_smoke.KeyExchange.Bd2Utils
use lib_smoke.KeyExchange.Bd2Utils.{
  World, Behavior, Role, chair_role, node_role, filled, chair_z0, node_zi, chair_xi, chair_init,
  chair_on_recv, node_on_recv, send_values, take_public, take_value, export, push,
}
use lib_smoke.KeyExchange.Bd2Utils.Sends.{public_of, answer_of}
use lib_smoke.KeyExchange.Bd2Utils.Answers.{values_of, Sent, send_values-Answers}
use lib_smoke.KeyExchange.Bd2Utils.SameKey.{SameKey, on_recv-SameKey}
use lib_smoke.KeyExchange.Bd2
use lib_smoke.KeyExchange.Policies.{get_node, choose}
use lib_smoke.KeyExchange.Bd2.{Bd2, create, has_completed, deliver}
use lib_smoke.KeyExchange.Bd2.Status.{created, inits, updates, init-update}
use lib_smoke.KeyExchange.Bd2.Keyed.{Completed, Reachable-Completed}

abbrev junk : ℕ → Telegram
junk i = of_raw []

abbrev memory : List ℕ
memory = replicate 66 0

abbrev start : World ℕ
start = record { rng = 0; pkts = PktWrapper.create 0 }

abbrev chair : Behavior Bool Bool
chair = Bd2Utils.create toy 3 junk memory (chair_role 2 [])

abbrev node : Behavior Bool Bool
node = Bd2Utils.create toy 7 junk memory (node_role 3)

abbrev empty : Context Bool Bool
empty = record { priv = false; pub_point = false; peer = false; x = false; key = false }

-- the public value of each, and the value that hides the key
abbrev four : List ℕ
four = 4 ∷ replicate 65 0

abbrev hidden : List ℕ
hidden = 0 ∷ replicate 65 0

abbrev chair_ctx : Context Bool Bool
chair_ctx = record empty { priv = true; pub_point = true; key = true }

abbrev chair_started : Behavior Bool Bool
chair_started = record chair { ctx = some chair_ctx; keylen = 1; key = 1 ∷ [] }

abbrev chair_sent : World ℕ
chair_sent = record start { pkts = (PktWrapper.write_all 3 junk start.pkts chair_z0 four).1 }

abbrev chair_done : Behavior Bool Bool
chair_done = record chair_started {
  ctx = some (record chair_ctx { peer = true });
  completed = true;
}

abbrev chair_answered : World ℕ
chair_answered = record start { pkts = (PktWrapper.write 3 junk start.pkts 7 chair_xi hidden).1 }

abbrev node_ctx : Context Bool Bool
node_ctx = record empty { peer = true; priv = true; pub_point = true }

abbrev node_answering : Behavior Bool Bool
node_answering = record node { ctx = some node_ctx }

abbrev node_sent : World ℕ
node_sent = record start { pkts = (PktWrapper.write 7 junk start.pkts 3 node_zi four).1 }

abbrev node_done : Behavior Bool Bool
node_done = record node {
  ctx = some (record node_ctx { key = true });
  keylen = 1;
  key = 1 ∷ [];
  completed = true;
}

on_recv-SameKey_example :
    SameKey toy toy-Laws toy-Wire 3 7 junk junk memory memory refl refl start chair_sent start
      node_sent start chair_answered chair_done node_done four four hidden
unfolding Bd2Utils.create Library.init public_of answer_of values_of chair_init node_on_recv
    chair_on_recv send_values take_public take_value export push filled opp plus times
    Library.make_key Library.export_key Library.compute_shared_point Library.make_val
    Library.import_val Library.calc_key Library.make_public Library.read_public
on_recv-SameKey_example =
    on_recv-SameKey toy toy-Laws toy-Wire 3 7 junk junk memory memory refl refl chair chair_started
      chair_done node node_answering node_done empty chair_ctx empty start chair_sent start
      chair_answered start node_sent start start 0 four four hidden refl refl refl refl refl refl
      refl refl refl refl

send_values-Answers_example :
    Sent toy toy-Laws toy-Wire 3 junk memory refl chair_ctx chair_started start
      ((7, four) ∷ [])
      chair_done
      chair_answered
unfolding values_of send_values filled opp plus times Library.compute_shared_point Library.make_val
    Library.read_public Bd2Utils.create
send_values-Answers_example =
    send_values-Answers toy toy-Laws toy-Wire 3 junk memory refl 2 chair_ctx chair_started
      chair_done start chair_answered ((7, four) ∷ []) refl

abbrev nodes : List ℕ
nodes = 3 ∷ 7 ∷ []

-- the answer of the node, in the queue of the chair
abbrev answered : PktWrapper
answered = record start.pkts {
  in_queue = record { cmd = node_zi; src = 7; dest = 3; payload = four } ∷ [];
}

abbrev exchanged : Bd2 Bool Bool ℕ
exchanged =
    (Bd2.update toy 3 junk memory true
      (Bd2.init toy 3 junk memory true nodes (create 0) start.pkts).1 answered).1

Reachable-Completed_example : Completed toy 3 junk memory true exchanged.behavior
unfolding Bd2Utils.create Library.init Bd2.init chair_init chair_on_recv send_values export push
    filled opp plus times Library.make_key Library.export_key Library.compute_shared_point
    Library.make_val Library.make_public Library.read_public get_node choose deliver Bd2.update
    Bd2Utils.init Bd2Utils.on_recv
Reachable-Completed_example =
    Reachable-Completed toy 3 junk memory true exchanged
      (updates _ answered (inits nodes _ start.pkts (created 0))) refl

-- a generator that fails
init-update_example :
    let broken = record toy { gen_keypair = λ r. fail round_not_completed } in
    let s = Bd2.init broken 3 junk memory true nodes (create 0) start.pkts in
    (s.1.status ≡ key_running)
    × (Bd2.update broken 3 junk memory true s.1 answered
        ≡ (true, s.1, record answered { in_queue = [] }))
unfolding Bd2Utils.create Library.init Bd2.init chair_init Library.make_public get_node choose
    Bd2Utils.init
init-update_example =
    let broken = record toy { gen_keypair = λ r. fail round_not_completed } in
    init-update broken 3 junk memory true nodes (create 0) _ start.pkts _ answered refl refl refl
      refl
