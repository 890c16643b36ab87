-- ===== src/NodeCounter/Dummy/Counting.antt =====
-- Which nodes the counter finds.
use lib_smoke.Base.{
  ℕ, ◌∙◌, ◌+◌, ◌%◌, ◌^◌, inl, inr, Bool-cases, ap, ltb, not, if◌then◌else◌, ◌≤◌, ◌<◌, ◌≡◌, refl,
  arith, List, [], ◌∷◌, Bool, true, false, ◌||◌, ◌&&◌, ◌==◌, length,
}
use native.Mathlib.Decide.{dec_lt, ℕ_discrete}
use lib_smoke.Telegram.{Telegram}
use lib_smoke.PktWrapper
use lib_smoke.PktWrapper.{packetize, Pkt, PktWrapper}
use lib_smoke.NodeCounter.{counter_counting}
use lib_smoke.NodeCounter.NodeSet.{
  insert, member, Increasing, member-insert, length-insert, insert-Increasing,
}
use lib_smoke.NodeCounter.Dummy.{
  thats_me, Dummy, is_counting, take_in, count_down, announce, update,
}

-- whether a packet of `ps` announces `k`
unfoldable pub announced : ℕ → List Pkt → Bool
announced k [] = false
announced k (p ∷ ps) = ((p.cmd == thats_me) && (k == p.src)) || announced k ps

-- What a node counter knows: its own id is among the nodes, which are at most `n` and without
-- duplicates.
pub record IsValid (id n : ℕ) (nodes : List ℕ) : Type 0 where
  pub increasing : Increasing nodes
  pub mine : member id nodes ≡ true
  pub bounded : length nodes ≤ n

pub take_in-IsValid :
    (id n : ℕ) (nodes : List ℕ) (ps : List Pkt)
    → IsValid id n nodes
    → IsValid id n (take_in n nodes ps).0
unfolding take_in
take_in-IsValid id n nodes [] v = v
take_in-IsValid id n nodes (p ∷ ps) v = ground (
  arith,
  v,
  insert-Increasing p.src nodes v.increasing,
  member-insert id p.src nodes,
  length-insert p.src nodes,
  take_in-IsValid id n (insert p.src nodes) ps,
  take_in-IsValid id n nodes ps v,
)

abbrev after : ℕ → List ℕ → Pkt → List ℕ
after n nodes p =
    if (p.cmd == thats_me) && (not (member p.src nodes) && ltb (length nodes) n)
    then insert p.src nodes
    else nodes

member-after :
    (n k : ℕ) (nodes : List ℕ) (p : Pkt)
    → length nodes < n
    → member k (after n nodes p) ≡ (member k nodes || ((p.cmd == thats_me) && (k == p.src)))
member-after n k nodes p h = elim (ℕ_discrete k p.src) [
  | yes e ↦ ground (arith, ap (λ j. member j nodes) e, member-insert k p.src nodes)
  | no ne ↦ ground (arith, member-insert k p.src nodes)
]

-- If fewer than `n` nodes are known after the loop, then it has taken all packets, and the nodes are
-- those known before and those that announced themselves.
pub take_in-announced :
    (n : ℕ) (nodes : List ℕ) (ps : List Pkt)
    → length (take_in n nodes ps).0 < n
    → ((take_in n nodes ps).1 ≡ [])
      × ((k : ℕ) → member k (take_in n nodes ps).0 ≡ (member k nodes || announced k ps))
unfolding take_in announced
take_in-announced n nodes [] h = (refl, λ k. ground arith)
take_in-announced n nodes (p ∷ ps) h = elim (dec_lt (length nodes) n) [
  | no full ↦ absurd (ground arith)
  | yes few ↦
      let ih = take_in-announced n (after n nodes p) ps (ground (arith, h)) in
      (ground (arith, ih.0), λ k. ground (arith, ih.1 k, member-after n k nodes p few))
]

-- Announcing oneself leaves the packets that came in.
in_queue-announce :
    (id : ℕ) (junk : ℕ → Telegram) (s : Dummy) (w : PktWrapper)
    → (announce id junk s w).in_queue ≡ w.in_queue
unfolding announce PktWrapper.write packetize
in_queue-announce id junk s w = ground arith

nodes-count_down : (n : ℕ) (s : Dummy) → (count_down n s).nodes ≡ s.nodes
unfolding count_down
nodes-count_down n s = ground arith

module _ (id : ℕ) (junk : ℕ → Telegram) (n : ℕ) (s : Dummy) (w : PktWrapper) where
  -- On every branch `update` keeps the nodes increasing (so without duplicates), at most `n`, and with
  -- the node's own id among them.
  pub update-IsValid : IsValid id n s.nodes → IsValid id n (update id junk n s w).1.nodes
  unfolding update
  update-IsValid v =
      let queue : List Pkt = (announce id junk s w).in_queue in
      let found : Dummy = record s {
        cnt = (s.cnt + 1) % 2 ^ 8;
        nodes = (take_in n s.nodes queue).0;
      } in
      elim (Bool-cases (is_counting s.status)) [
        | inr off ↦ rw off v
        | inl on ↦ rw (on, nodes-count_down n found) (take_in-IsValid id n s.nodes queue v)
      ]

  -- If a counter that is counting knows fewer than `n` nodes after an update, then the update has
  -- taken all packets, and the nodes are those known before and those that announced themselves.
  pub update-announced :
      s.status ≡ counter_counting
      → (let (done, s', w') = update id junk n s w in
          length s'.nodes < n
          → (w'.in_queue ≡ [])
            × ((k : ℕ) → member k s'.nodes ≡ (member k s.nodes || announced k w.in_queue)))
  unfolding update
  update-announced c =
      let queue : List Pkt = (announce id junk s w).in_queue in
      let found : Dummy = record s {
        cnt = (s.cnt + 1) % 2 ^ 8;
        nodes = (take_in n s.nodes queue).0;
      } in
      let same = nodes-count_down n found in
      let q = in_queue-announce id junk s w in
      rw (ap is_counting c, same)
        λ lt.
          let t = take_in-announced n s.nodes queue lt in
          (t.0, λ k. t.1 k ∙ ap (λ l. member k s.nodes || announced k l) q)
