-- ===== src/PktWrapper/Foreign.antt =====
-- A node gets no packets of its own: what a key exchange or a counter finds in the queue is from others.
use lib_smoke.Base.{
  ℕ, zero, suc, ◌≡◌, subst, List, [], ◌∷◌, ◌++◌, Option, none, some, Bool, true, false, ◌||◌, ◌==◌,
  if◌then◌else◌, All, Bool-cases, inl, inr,
}
use lib_smoke.Ring.{RingBuffer}
use lib_smoke.Telegram.{Telegram, broadcast, src, dest, check, new}
use lib_smoke.Backend.{Backend}
use lib_smoke.MultiRings
use lib_smoke.MultiRings.{Got, ring, null, unfinished}
use lib_smoke.PktWrapper.{Pkt, PktWrapper, extract, recompose_into, recompose}
use lib_smoke.PktWrapper.Update.{send_all, recv_all, update}

-- no packet is the node's own
abbrev pub AllForeign : ℕ → List Pkt → Type 0
AllForeign id packets = All (λ (packet : Pkt). (packet.src == id) ≡ false) packets

AllForeign-append :
    (id : ℕ) (ps qs : List Pkt) → AllForeign id ps → AllForeign id qs → AllForeign id (ps ++ qs)
AllForeign-append id [] qs a b = b
AllForeign-append id (p ∷ ps) qs a b = (a.0, AllForeign-append id ps qs a.1 b)

in_branch :
    (id : ℕ) (c : Bool) (r r' : RingBuffer) (packet : Pkt) (packets : List Pkt)
    → (packet.src == id) ≡ false
    → AllForeign id packets
    → let left : RingBuffer × List Pkt = if c then (r, []) else (r', packet ∷ packets) in
      AllForeign id left.1
in_branch id true r r' packet packets ne a = tt
in_branch id false r r' packet packets ne a = (ne, a)

extract-AllForeign :
    (id fuel from to : ℕ) (r : RingBuffer)
    → (from == id) ≡ false
    → AllForeign id (extract fuel from to r).1
unfolding extract
extract-AllForeign id zero from to r ne = tt
extract-AllForeign id (suc fuel) from to r ne =
    in_branch id _ r _ _ _ ne (extract-AllForeign id fuel from to _ ne)

recompose_into-AllForeign :
    (id : ℕ) (w : PktWrapper) (t : Telegram) (g : Got)
    → (src t == id) ≡ false
    → AllForeign id w.in_queue
    → AllForeign id (recompose_into w t g).in_queue
unfolding recompose_into
recompose_into-AllForeign id w t (ring i m) ne a =
    AllForeign-append id w.in_queue _ a (extract-AllForeign id _ (src t) (dest t) _ ne)
recompose_into-AllForeign id w t (null m) ne a = a
recompose_into-AllForeign id w t unfinished ne a = a

recompose-AllForeign :
    (id : ℕ) (w : PktWrapper) (t : Telegram)
    → AllForeign id w.in_queue
    → AllForeign id (recompose id w t).in_queue
unfolding recompose
recompose-AllForeign id w t a = elim (Bool-cases (src t == id)) [
  | inl own ↦ rw own a
  | inr ne ↦ elim (Bool-cases (check t)) [
    | inr bad ↦ rw (ne, bad) a
    | inl good ↦
        rw (ne, good) (recompose_into-AllForeign id w t (MultiRings.get w.buffers (src t)) ne a)
  ]
]

module _ {S : Type 0} (b : Backend S) where
  abbrev queue_of : Option (S × PktWrapper) → List Pkt
  queue_of none = []
  queue_of (some x) = x.1.in_queue

  -- the test of the loop, and what follows it
  ends :
      (id : ℕ) (c : Bool) (s s' : S) (w w' : PktWrapper) (rest : Option (S × PktWrapper))
      → AllForeign id w.in_queue
      → (rest ≡ some (s', w') → AllForeign id w'.in_queue)
      → (if c then some (s, w) else rest) ≡ some (s', w')
      → AllForeign id w'.in_queue
  ends id true s s' w w' rest a f e =
      subst (λ (x : Option (S × PktWrapper)). AllForeign id (queue_of x)) e a
  ends id false s s' w w' rest a f e = f e

  recv_all-AllForeign :
      (fuel id : ℕ) (junk : Telegram) (s s' : S) (w w' : PktWrapper)
      → AllForeign id w.in_queue
      → recv_all b fuel id junk s w ≡ some (s', w')
      → AllForeign id w'.in_queue
  unfolding recv_all
  recv_all-AllForeign zero id junk s s' w w' a e =
      ends id (b.count s == 0) s s' w w' none a (λ f. absurd (cc f)) e
  recv_all-AllForeign (suc fuel) id junk s s' w w' a e =
      let t = (b.read s (new id junk)).0 in
      let next = if (dest t == broadcast) || (dest t == id) then recompose id w t else w in
      let kept : AllForeign id next.in_queue =
        elim (Bool-cases ((dest t == broadcast) || (dest t == id))) [
          | inl y ↦ rw y (recompose-AllForeign id w t a)
          | inr n ↦ rw n a
        ] in
      ends id (b.count s == 0) s s' w w' _ a
        (recv_all-AllForeign fuel id junk (b.read s (new id junk)).1 s' next w' kept) e

  -- Over any backend, whatever it delivers: if the queue of packets holds none of the node's own before
  -- an `update` that ends, then it holds none after it.
  pub update-AllForeign :
      (fuel id : ℕ) (junk : Telegram) (s s' : S) (w w' : PktWrapper)
      → AllForeign id w.in_queue
      → update b fuel id junk s w ≡ some (s', w')
      → AllForeign id w'.in_queue
  unfolding update
  update-AllForeign fuel id junk s s' w w' a e =
      recv_all-AllForeign fuel id junk (send_all b (b.update s) w.out_queue) s'
        (record w { out_queue = [] }) w' a e
