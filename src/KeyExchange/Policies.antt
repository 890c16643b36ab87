-- ===== src/KeyExchange/Policies.antt =====
-- Project/libsmoke/libs/sknx/src/shared/knx/crypto/policies.h: which node is the chair.
use lib_smoke.Base.{
  ℕ, ◌≤◌, ◌<◌, subst, sym, ◌≡◌, ◌≢◌, refl, arith, List, [], ◌∷◌, Bool, true, false, not, ◌||◌, ltb,
  ◌==◌, if◌then◌else◌, All,
}
use native.Mathlib.Decide.{dec_lt}
use lib_smoke.NodeCounter.NodeSet.{member}

-- the `for` loop of `get_node`
unfoldable pub choose : ℕ → Bool → List ℕ → ℕ
choose n chosen [] = n
choose n chosen (i ∷ nodes) =
    if not chosen || ltb i n then choose i true nodes else choose n chosen nodes

-- `LowestIdNodeChooser::get_node`
unfoldable pub get_node : List ℕ → ℕ
unfolding choose
get_node nodes = choose 0 false nodes

-- `c` is `n` or a node, and none of these is below it
abbrev Lowest : ℕ → ℕ → List ℕ → Type 0
Lowest c n nodes = (((c == n) || member c nodes) ≡ true) × (c ≤ n) × All (λ k. c ≤ k) nodes

Lowest-below : (c n i : ℕ) (nodes : List ℕ) → i < n → Lowest c i nodes → Lowest c n (i ∷ nodes)
unfolding member
Lowest-below c n i nodes h l = (ground (arith, l.0), omega (arith, l.1), (l.1, l.2))

Lowest-keep : (c n i : ℕ) (nodes : List ℕ) → n ≤ i → Lowest c n nodes → Lowest c n (i ∷ nodes)
unfolding member
Lowest-keep c n i nodes h l = (ground (arith, l.0), l.1, (omega (arith, l.1), l.2))

choose-Lowest : (n : ℕ) (nodes : List ℕ) → Lowest (choose n true nodes) n nodes
unfolding choose member
choose-Lowest n [] = (ground arith, omega arith, tt)
choose-Lowest n (i ∷ nodes) = elim (dec_lt i n) [
  | yes h ↦
      let e : choose n true (i ∷ nodes) ≡ choose i true nodes = ground arith in
      subst (λ c. Lowest c n (i ∷ nodes)) (sym e)
        (Lowest-below (choose i true nodes) n i nodes h (choose-Lowest i nodes))
  | no h ↦
      let e : choose n true (i ∷ nodes) ≡ choose n true nodes = ground arith in
      subst (λ c. Lowest c n (i ∷ nodes)) (sym e)
        (Lowest-keep (choose n true nodes) n i nodes (omega arith) (choose-Lowest n nodes))
]

-- Of a set that is not empty, the chooser takes the lowest id: it is a member, and no member is below
-- it.
pub get_node_lem :
    (nodes : List ℕ)
    → nodes ≢ []
    → (member (get_node nodes) nodes ≡ true) × All (λ k. get_node nodes ≤ k) nodes
unfolding get_node choose member
get_node_lem [] ne = absurd (ne refl)
get_node_lem (i ∷ nodes) ne = let h = choose-Lowest i nodes in (h.0, (h.1, h.2))
