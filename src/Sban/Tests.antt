-- ===== src/Sban/Tests.antt =====
-- BD2 over the group of two elements.
use lib_smoke.Base.{◌≡◌, refl, [], ◌∷◌, Bool, true, false}
use lib_smoke.Sban.{opp}
use lib_smoke.Sban.Bd2.{
  Context, make_key, compute_shared_point, make_val, import_val, calc_key, make_public, read_public,
}
use lib_smoke.Sban.Bd2.SameKey.{calc_key-same}
use lib_smoke.Sban.Toy.{plus, times, toy, toy-Laws}

abbrev Ctx : Type 0
Ctx = Context Bool Bool

abbrev empty : Ctx
empty = record { priv = false; pub_point = false; peer = false; x = false; key = false }

abbrev chair1 : Ctx
chair1 = record empty { priv = true; pub_point = true }

abbrev chair2 : Ctx
chair2 = record chair1 { key = true }

abbrev chair3 : Ctx
chair3 = record chair2 { peer = true }

abbrev node1 : Ctx
node1 = record empty { peer = true }

abbrev node2 : Ctx
node2 = record node1 { priv = true; pub_point = true }

abbrev node4 : Ctx
node4 = record node2 { key = true }

calc_key-same_example : node4.key ≡ chair2.key
unfolding plus times opp make_key compute_shared_point make_val import_val calc_key make_public
    read_public
calc_key-same_example =
    calc_key-same toy toy-Laws empty chair1 chair2 chair2 chair3 chair3 empty node1 node2 node2
      node4 66 (4 ∷ []) (4 ∷ []) (0 ∷ []) 0 0 0 0 0 0 0 0 refl refl refl refl refl refl refl refl
      refl refl
