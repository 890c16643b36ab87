-- ===== src/KeyExchange/Bd1/Tests.antt =====
-- The values of four nodes, as node 5 orders them.
use lib_smoke.Base.{ℕ, ◌≡◌, refl, arith, List, [], ◌∷◌, ◌++◌}
use lib_smoke.NodeCounter.NodeSet.{member, insert}
use lib_smoke.KeyExchange.Bd1.{arrange}
use lib_smoke.KeyExchange.Bd1.Order.{values, push_all, Distinct, collect, arrange-circle}

abbrev value : ℕ → List ℕ
value k = k ∷ 0 ∷ []

abbrev arrivals : List ℕ
arrivals = 9 ∷ 2 ∷ 5 ∷ 7 ∷ []

arrivals-Distinct : Distinct value arrivals
unfolding member
arrivals-Distinct = (refl, (refl, (refl, (refl, tt))))

arrivals-set : collect value arrivals ≡ (2 ∷ []) ++ 5 ∷ 7 ∷ 9 ∷ []
unfolding insert
arrivals-set = refl

arrange-circle_example : arrange 5 (push_all value arrivals) ≡ values value ((7 ∷ 9 ∷ []) ++ 2 ∷ [])
arrange-circle_example =
    arrange-circle value 5 (2 ∷ []) (7 ∷ 9 ∷ []) arrivals arrivals-Distinct arrivals-set
      (omega arith)
