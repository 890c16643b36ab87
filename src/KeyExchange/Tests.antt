-- ===== src/KeyExchange/Tests.antt =====
-- A circle of three nodes.
use lib_smoke.Base.{ℕ, ◌≤◌, ◌≡◌, refl, arith, List, [], ◌∷◌, ◌++◌, true, All}
use lib_smoke.NodeCounter.NodeSet.{Increasing, member}
use lib_smoke.KeyExchange.Policies.{get_node, get_node_lem}
use lib_smoke.KeyExchange.Neighbours.{network}
use lib_smoke.KeyExchange.Neighbours.Circle.{network-split}
use lib_smoke.KeyExchange.Neighbours.Inverse.{network-inverse}

abbrev three : List ℕ
three = 3 ∷ 7 ∷ 9 ∷ []

three-Increasing : Increasing three
three-Increasing = omega arith

get_node_lem_example : (member (get_node three) three ≡ true) × All (λ k. get_node three ≤ k) three
get_node_lem_example = get_node_lem three (λ e. ground (arith, e))

network-split_example :
    network 7 ((3 ∷ []) ++ 7 ∷ 9 ∷ []) ≡ record { prev = 3; next = 9; first = 3; last = 9; pos = 2 }
network-split_example = network-split 7 (3 ∷ []) (9 ∷ []) three-Increasing (omega arith)

nine : member 9 three ≡ true
unfolding member
nine = refl

network-inverse_example : (network (network 9 three).next three).prev ≡ 9
network-inverse_example = network-inverse 9 three three-Increasing (omega arith) nine
