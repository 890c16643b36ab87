-- ===== src/KeyExchange/Neighbours/Inverse.antt =====
-- On the circle of nodes, successor and predecessor are inverse.
use lib_smoke.Base.{
  ℕ, ◌^◌, ◌<◌, ◌≡◌, refl, ◌∙◌, ap, sym, subst, arith, List, [], ◌∷◌, ◌++◌, append_assoc, true,
  length, length-append,
}
use native.Mathlib.Decide.{ℕ_discrete}
use lib_smoke.NodeCounter.NodeSet.{Increasing, member}
use lib_smoke.KeyExchange.Neighbours.{Network, network}
use lib_smoke.KeyExchange.Neighbours.Circle.{last_or, head_or, network-split}

-- a member splits the list
split_at :
    (a : ℕ) (nodes : List ℕ)
    → member a nodes ≡ true
    → (below : List ℕ) × (above : List ℕ) × (below ++ a ∷ above ≡ nodes)
unfolding member
split_at a [] h = absurd (cc h)
split_at a (x ∷ xs) h = elim (ℕ_discrete a x) [
  | yes e ↦ ([], xs, ap (λ y. y ∷ xs) e)
  | no ne ↦
      let (below, above, e) = split_at a xs (ground (arith, h)) in
      (x ∷ below, above, ap (λ l. x ∷ l) e)
]

last_or-append : (d x : ℕ) (xs : List ℕ) → last_or d (xs ++ x ∷ []) ≡ x
last_or-append d x [] = refl
last_or-append d x (y ∷ ys) = last_or-append y x ys

prev_of :
    (b a : ℕ) (below above nodes : List ℕ)
    → (below ++ b ∷ above) ≡ nodes
    → Increasing nodes
    → length nodes < 2 ^ 16
    → last_or (last_or b above) below ≡ a
    → (network b nodes).prev ≡ a
prev_of b a below above nodes e i s l =
    subst (λ ns. (network b ns).prev ≡ a) e
      (ap (λ (n : Network). n.prev)
          (network-split b below above (subst Increasing (sym e) i)
            (omega (arith, ap length e, length-append below (b ∷ above), s)))
        ∙ l)

module _ (a : ℕ) (below above nodes : List ℕ) (e : (below ++ a ∷ above) ≡ nodes)
    (i : Increasing nodes) (s : length nodes < 2 ^ 16) where
  next_of : (network a nodes).next ≡ head_or (head_or a below) above
  next_of =
      subst (λ ns. (network a ns).next ≡ head_or (head_or a below) above) e
        (ap (λ (n : Network). n.next)
          (network-split a below above (subst Increasing (sym e) i)
            (omega (arith, ap length e, length-append below (a ∷ above), s))))

  prev_head : (network (head_or (head_or a below) above) nodes).prev ≡ a
  prev_head = by_above below above e
    where
      by_above :
          (below above : List ℕ)
          → (below ++ a ∷ above) ≡ nodes
          → (network (head_or (head_or a below) above) nodes).prev ≡ a
      by_above below (b ∷ above) e =
          prev_of b a (below ++ a ∷ []) above nodes (append_assoc below (a ∷ []) (b ∷ above) ∙ e) i
            s (last_or-append (last_or b above) a below)
      by_above [] [] e = prev_of a a [] [] nodes e i s refl
      by_above (b ∷ below) [] e =
          prev_of b a [] (below ++ a ∷ []) nodes e i s (last_or-append b a below)

-- In an increasing set of fewer than 2^16 nodes, the successor that a node computes for itself takes
-- that node for its predecessor.
pub network-inverse :
    (a : ℕ) (nodes : List ℕ)
    → Increasing nodes
    → length nodes < 2 ^ 16
    → member a nodes ≡ true
    → (network (network a nodes).next nodes).prev ≡ a
network-inverse a nodes i s m =
    let (below, above, e) = split_at a nodes m in
    rw (next_of a below above nodes e i s) (prev_head a below above nodes e i s)
