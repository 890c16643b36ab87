-- ===== src/Sban/Bd1/Tests.antt =====
-- A circle of three nodes with the same secret.
use lib_smoke.Base.{ℕ, ◌≡◌, ◌≢◌, refl, arith, List, [], ◌∷◌, Bool, true, false}
use lib_smoke.Sban.{ok}
use lib_smoke.Sban.Bd1.{Context, hide, gen_value, first_term, add_values, key_point, compute_key}
use lib_smoke.Sban.Bd1.SameKey.{gen_value-links, compute_key-agrees}
use lib_smoke.Sban.Toy.{plus, times, odd, toy, toy_arithmetic, toy-Laws}
use lib_smoke.Sban.Toy.Circle.{toy-Module}

abbrev node : Context Bool Bool
node = record { r = true; z = true; x = false }

-- the bytes of the two elements
abbrev four : List ℕ
four = 4 ∷ []

abbrev nought : List ℕ
nought = 0 ∷ []

abbrev key : List ℕ
key = 1 ∷ []

not_two : ◌≢◌ {A = ℕ} 3 2
not_two e = absurd (omega (arith, e))

gen_value-links_example :
    (toy-Laws.plus node.x (toy-Laws.times true true) ≡ toy-Laws.times true true)
    × (toy.write_point node.x 66 ≡ ok nought)
    × (node.z ≡ true)
    × (node.r ≡ true)
unfolding gen_value hide plus times
gen_value-links_example =
    gen_value-links toy toy_arithmetic toy-Laws toy-Module (record node { z = false }) node true
      true 66 66 66 66 four four [] nought 0 0 refl refl refl

compute_key-agrees_example : key ≡ key
unfolding plus times odd first_term add_values key_point compute_key toy-Laws
compute_key-agrees_example =
    compute_key-agrees toy toy_arithmetic toy-Laws toy-Module node node true true (false ∷ [])
      (false ∷ []) (true ∷ []) [] 3 66 66 1 1 nought nought key key 0 0 0 0 not_two refl refl
      (nought, [], 1, refl, refl, tt) (nought, [], 1, refl, refl, tt) refl refl (refl, (refl, tt))
      (refl, (refl, tt)) refl refl
