-- ===== src/Sban/Gdh2/Tests.antt =====
-- GDH2 with secrets that are all one.
use lib_smoke.Base.{ℕ, ◌≡◌, ◌≢◌, refl, arith, List, [], ◌∷◌, Bool, true, false}
use lib_smoke.Sban.Util.{try_from, gen_privkey, InRange, Tried, gen_privkey-Tried}
use lib_smoke.Sban.Gdh2.{
  Context, multiply, add_second, last_val, middle_val, make_val, write_key, compute_key, export_key,
}
use lib_smoke.Sban.Gdh2.Values.{prod, missing, Packed}
use lib_smoke.Sban.Gdh2.SameKey.{compute_key-exported}
use lib_smoke.Sban.Gdh2.Middle.{make_val-missing}
use lib_smoke.Sban.Toy.{times}
use lib_smoke.Sban.Toy.Wide.{wide, wide_arithmetic, wide_curve, wide-Laws, wide-Products}

gen_privkey-Tried_example :
    (try_from wide_curve 40 0 7 ≡ gen_privkey wide_curve 7)
    × Tried wide_curve 31 7 (gen_privkey wide_curve 7)
    × InRange wide_curve (gen_privkey wide_curve 7)
gen_privkey-Tried_example = gen_privkey-Tried wide_curve 40 7 (omega arith)

abbrev secrets : List Bool
secrets = true ∷ true ∷ []

-- one, two and three points
abbrev one : List ℕ
one = 4 ∷ 0 ∷ []

abbrev two : List ℕ
two = 4 ∷ 0 ∷ 4 ∷ 0 ∷ []

abbrev three : List ℕ
three = 4 ∷ 0 ∷ 4 ∷ 0 ∷ 4 ∷ 0 ∷ []

abbrev four : List ℕ
four = 4 ∷ 0 ∷ 4 ∷ 0 ∷ 4 ∷ 0 ∷ 4 ∷ 0 ∷ []

abbrev key : List ℕ
key = 1 ∷ []

three-not_two : ◌≢◌ {A = ℕ} 3 2
three-not_two e = absurd (omega (arith, e))

abbrev node : Context Bool
node = record { priv = true; key = false; n = 3 }

abbrev done : Context Bool
done = record node { key = true }

three-Packed :
    Packed wide wide_arithmetic wide_curve wide-Laws wide-Products
      (prod wide wide_arithmetic wide_curve wide-Laws wide-Products secrets
        ∷ missing wide wide_arithmetic wide_curve wide-Laws wide-Products secrets)
      three
unfolding times wide-Laws
three-Packed = (one, two, 66, refl, refl, (one, one, 66, refl, refl, (one, [], 66, refl, refl, tt)))

compute_key-exported_example : (◌≡◌ {A = ℕ} 1 1) × (key ≡ key)
unfolding times wide-Laws make_val last_val multiply add_second export_key write_key compute_key
compute_key-exported_example =
    compute_key-exported wide wide_arithmetic wide_curve wide-Laws wide-Products node done node done
      1 6 4 66 66 1 1 secrets three two key key 0 0 0 0 three-not_two refl refl refl three-Packed
      (refl, (refl, tt)) refl refl refl

abbrev middle : Context Bool
middle = record node { n = 4 }

make_val-missing_example :
    Packed wide wide_arithmetic wide_curve wide-Laws wide-Products
      (prod wide wide_arithmetic wide_curve wide-Laws wide-Products (true ∷ secrets)
        ∷ missing wide wide_arithmetic wide_curve wide-Laws wide-Products (true ∷ secrets))
      four
    × (middle ≡ middle)
unfolding times make_val middle_val multiply add_second
make_val-missing_example =
    make_val-missing wide wide_arithmetic wide_curve wide-Laws wide-Products middle middle 3 6 66
      secrets three four 0 0 (omega arith) (omega arith) refl three-Packed refl
