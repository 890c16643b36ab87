-- ===== src/PktWrapper/Delivery.antt =====
-- The telegrams of a packet at the receiver, up to its queue; Packet below it starts from the sender's
-- `write`.
pub mod Packet
use lib_smoke.Base.{
  ℕ, zero, suc, ◌+◌, ◌-◌, ◌*◌, ◌/◌, ◌^◌, ◌≤◌, ◌<◌, ◌≡◌, ◌≢◌, ap, sym, subst, ◌∙◌, refl, arith, List,
  [], ◌∷◌, ◌++◌, append-nil, true, ◌||◌, ◌⊎◌, inl, inr, ◌==◌, if◌then◌else◌, length, take, drop,
  length-take, length-drop, take-all, take-add,
}
use native.Mathlib.Decide.{dec_lt, ℕ_discrete}
use lib_smoke.Telegram.{Telegram, broadcast, src, dest}
use lib_smoke.Telegram.Wire.{IsWf}
use lib_smoke.MultiRings.{Slot}
use lib_smoke.MultiRings.Slots.{find}
use lib_smoke.MultiRings.Collect.{IsValid}
use lib_smoke.MultiRings.Lookup.{pending, Busy}
use lib_smoke.PktWrapper.{Pkt, PktWrapper, encode, recompose, receive}
use lib_smoke.PktWrapper.Parse.{parse, parse-prefix, parse-encode_only}
use lib_smoke.PktWrapper.Recompose.{
  accept, body_bytes, parsed, Delivers, recompose-Delivers, same_if,
}
use lib_smoke.PktWrapper.Packetize.{fragment_count, arrived, Arrives, arrived-Arrives}

-- A sender with pending bytes has a ring, so the table is not full of other senders.
pending-not-Busy : (key : ℕ) (ss : List Slot) → pending key ss ≢ [] → ¬ Busy key ss
unfolding find
pending-not-Busy key [] ne b = ne refl
pending-not-Busy key (s ∷ ss) ne b = ground (arith, pending-not-Busy key ss)

if_pending :
    (k from : ℕ) (ss : List Slot)
    → pending from ss ≡ []
    → (if k == from then [] else pending k ss) ≡ pending k ss
if_pending k from ss e = elim (ℕ_discrete k from) [
  | yes h ↦ ground (arith, ap (λ j. pending j ss) h)
  | no h ↦ ground arith
]

-- the telegrams of a packet as they arrive, from the `i`-th on
abbrev pub arrivals : ℕ → (ℕ → Telegram) → (ℕ → Telegram) → ℕ → List ℕ → ℕ → ℕ → List Telegram
arrivals from junk junk' to bytes zero i = []
arrivals from junk junk' to bytes (suc n) i =
    arrived from (junk i) (junk' i) to bytes i ∷ arrivals from junk junk' to bytes n (suc i)

-- What one arrival does to a receiver that has the first `i` pieces.
module _ (id : ℕ) (w : PktWrapper) (from to cmd i : ℕ) (buf : List ℕ) (t : Telegram)
    (v : IsValid w.buffers) (arrives : Arrives from to (encode cmd buf) i t)
    (range : length buf < 2 ^ 16) (other : from ≢ id) (small : length buf + 3 ≤ 1024)
    (free : ¬ Busy from w.buffers.buffers)
    (so_far : pending from w.buffers.buffers ≡ take (15 * i) (encode cmd buf)) where
  abbrev whole : List ℕ
  whole = encode cmd buf

  length-whole : length whole ≡ length buf + 3
  unfolding encode
  length-whole = omega arith

  accepted : accept (take (15 * i) whole) (body_bytes t) ≡ take (15 * i + 15) whole
  unfolding accept
  accepted = ground (
    arith,
    arrives.bytes,
    take-add (15 * i) 15 whole,
    length-take (15 * i) whole,
    length-take 15 (drop (15 * i) whole),
    length-drop (15 * i) whole,
    length-whole,
  )

  parsed-eq :
      parsed (pending from w.buffers.buffers) t
      ≡ (let q = take (15 * i + 15) whole in parse from to (suc (length q)) q)
  parsed-eq = ground (arith, accepted, so_far, arrives.from, arrives.dest_same)

  delivered : Delivers w t (recompose id w t)
  delivered = recompose-Delivers id w t arrives.wf v (ground (arith, arrives.from)) arrives.checked

  abbrev after : PktWrapper
  after = recompose id w t

  -- the receiver's state when `q` is left and `packets` came out
  abbrev Leaves : List ℕ → List Pkt → PktWrapper → Type 0
  Leaves q packets w' =
      IsValid w'.buffers
      × (w'.in_queue ≡ w.in_queue ++ packets)
      × ((k : ℕ)
          → pending k w'.buffers.buffers ≡ (if k == from then q else pending k w.buffers.buffers))

  Leaves-by :
      (q : List ℕ) (packets : List Pkt)
      → (let b = take (15 * i + 15) whole in parse from to (suc (length b)) b) ≡ (q, packets)
      → Leaves q packets after
  Leaves-by q packets e = go (delivered) (parsed-eq ∙ e)
    where
      go :
          Delivers w t after
          → parsed (pending from w.buffers.buffers) t ≡ (q, packets)
          → Leaves q packets after
      go (inl b) p = absurd (free (subst (λ k. Busy k w.buffers.buffers) arrives.from b.1))
      go (inr d) p =
          let p' = ap (λ k. parsed (pending k w.buffers.buffers) t) arrives.from ∙ p in
          (
            d.0,
            d.3 ∙ ap (λ (x : List ℕ × List Pkt). w.in_queue ++ x.1) p',
            λ k.
                d.4 k
                ∙ same_if k (src t) from arrives.from (ap (λ (x : List ℕ × List Pkt). x.0) p') refl,
          )

  -- before the last piece nothing comes out
  more : 15 * i + 15 < length whole → Leaves (take (15 * i + 15) whole) [] after
  more h =
      Leaves-by _ _ (
        parse-prefix from to (suc (length (take (15 * i + 15) whole))) cmd buf (15 * i + 15) range
          h)

  -- the last piece completes the packet
  last :
      length whole ≤ 15 * i + 15
      → Leaves [] (record { cmd = cmd; src = from; dest = to; payload = buf } ∷ []) after
  last h =
      Leaves-by _ _ (
        rw (take-all (15 * i + 15) whole h)
          (parse-encode_only from to (length whole) cmd buf range))

receive-addressed :
    (id : ℕ) (w : PktWrapper) (t : Telegram) (ts : List Telegram)
    → ((dest t == broadcast) || (dest t == id)) ≡ true
    → receive id w (t ∷ ts) ≡ receive id (recompose id w t) ts
unfolding receive
receive-addressed id w t ts h = rw h

receive-nil : (id : ℕ) (w : PktWrapper) → receive id w [] ≡ w
unfolding receive
receive-nil id w = refl

-- The arrivals from the `i`-th on, `n` of them.
module _ (id : ℕ) (junk junk' : ℕ → Telegram) (from to cmd : ℕ) (buf : List ℕ) (hf : from < 2 ^ 16)
    (ht : to < 2 ^ 16) (wj : (i : ℕ) → IsWf (junk i)) (wj' : (i : ℕ) → IsWf (junk' i))
    (other : from ≢ id) (dst : (to ≡ broadcast) ⊎ (to ≡ id)) (small : length buf + 3 ≤ 1024) where
  abbrev Delivered : PktWrapper → PktWrapper → Type 0
  Delivered w w' =
      (w'.in_queue
        ≡ w.in_queue ++ (record { cmd = cmd; src = from; dest = to; payload = buf } ∷ []))
      × IsValid w'.buffers
      × ((k : ℕ)
          → pending k w'.buffers.buffers ≡ (if k == from then [] else pending k w.buffers.buffers))

  whole_length : length (encode cmd buf) ≡ length buf + 3
  unfolding encode
  whole_length = omega arith

  addressed : (d : ℕ) → d ≡ to → ((d == broadcast) || (d == id)) ≡ true
  addressed d e = ground arith

  -- what `Leaves` says before the last piece
  abbrev Waits : PktWrapper → ℕ → PktWrapper → Type 0
  Waits w i w' =
      IsValid w'.buffers
      × (w'.in_queue ≡ w.in_queue ++ [])
      × ((k : ℕ)
          → pending k w'.buffers.buffers ≡ (
              if k == from
              then take (15 * i + 15) (encode cmd buf)
              else pending k w.buffers.buffers))

  next :
      (i : ℕ) (w w' : PktWrapper)
      → Waits w i w'
      → (pending from w'.buffers.buffers ≡ take (15 * suc i) (encode cmd buf))
        × (15 * i + 15 < length (encode cmd buf) → ¬ Busy from w'.buffers.buffers)
  next i w w' m =
      let e : 15 * suc i ≡ 15 * i + 15 = omega arith in
      let q : pending from w'.buffers.buffers ≡ take (15 * i + 15) (encode cmd buf) =
        ground (arith, m.2 from) in
      (
        ground (arith, q, e),
        λ h. pending-not-Busy from w'.buffers.buffers (λ z. omega (
          arith,
          ap length (sym q ∙ z),
          length-take (15 * i + 15) (encode cmd buf),
          whole_length,
        )),
      )

  joined : (w w' w'' : PktWrapper) (i : ℕ) → Waits w i w' → Delivered w' w'' → Delivered w w''
  joined w w' w'' i m d =
      (ground (arith, d.0, m.1, append-nil w.in_queue), d.1, λ k. ground (arith, d.2 k, m.2 k))

  receive_loop :
      (n i : ℕ) (w : PktWrapper)
      → IsValid w.buffers
      → ¬ Busy from w.buffers.buffers
      → pending from w.buffers.buffers ≡ take (15 * i) (encode cmd buf)
      → 15 * i < length (encode cmd buf)
      → n ≡ (length (encode cmd buf) - 15 * i + 14) / 15
      → Delivered w (receive id w (arrivals from junk junk' to (encode cmd buf) n i))
  receive_loop zero i w v free so_far lt e = absurd (omega arith)
  receive_loop (suc n) i w v free so_far lt e =
      let t = arrived from (junk i) (junk' i) to (encode cmd buf) i in
      let a = arrived-Arrives from (junk i) (junk' i) to (encode cmd buf) i hf ht (wj i) (wj' i) in
      let range : length buf < 2 ^ 16 = omega arith in
      rw
        (receive-addressed id w t (arrivals from junk junk' to (encode cmd buf) n (suc i))
          (addressed (dest t) a.dest_same))
        (elim (dec_lt (15 * i + 15) (length (encode cmd buf))) [
          | yes h ↦
              let m = more id w from to cmd i buf t v a range other small free so_far h in
              let q = next i w (recompose id w t) m in
              joined w (recompose id w t)
                (receive id (recompose id w t)
                  (arrivals from junk junk' to (encode cmd buf) n (suc i)))
                i m
                (receive_loop n (suc i) (recompose id w t) m.0 (q.1 h) q.0 (omega arith)
                  (omega arith))
          | no h ↦
              let l =
                last id w from to cmd i buf t v a range other small free so_far (omega arith) in
              let z : n ≡ 0 = omega arith in
              subst
                (λ k. Delivered w (
                  receive id (recompose id w t)
                    (arrivals from junk junk' to (encode cmd buf) k (suc i))))
                (sym z) (rw receive-nil (l.1, l.0, l.2))
        ])

-- all the telegrams of a packet
pub receive-arrivals :
    (id : ℕ) (w : PktWrapper) (junk junk' : ℕ → Telegram) (from to cmd : ℕ) (buf : List ℕ)
    → from < 2 ^ 16
    → to < 2 ^ 16
    → ((i : ℕ) → IsWf (junk i))
    → ((i : ℕ) → IsWf (junk' i))
    → IsValid w.buffers
    → from ≢ id
    → (to ≡ broadcast) ⊎ (to ≡ id)
    → length buf + 3 ≤ 1024
    → ¬ Busy from w.buffers.buffers
    → pending from w.buffers.buffers ≡ []
    → let bytes = encode cmd buf in
      let w' = receive id w (arrivals from junk junk' to bytes (fragment_count bytes) 0) in
      (w'.in_queue
        ≡ w.in_queue ++ (record { cmd = cmd; src = from; dest = to; payload = buf } ∷ []))
      × IsValid w'.buffers
      × ((k : ℕ) → pending k w'.buffers.buffers ≡ pending k w.buffers.buffers)
receive-arrivals id w junk junk' from to cmd buf hf ht wj wj' v other dst small free empty =
    let nothing_left : (k : ℕ)
        → (if k == from then [] else pending k w.buffers.buffers) ≡ pending k w.buffers.buffers =
      λ k. if_pending k from w.buffers.buffers empty in
    let len = whole_length id junk junk' from to cmd buf hf ht wj wj' other dst small in
    let h =
      receive_loop id junk junk' from to cmd buf hf ht wj wj' other dst small
        (fragment_count (encode cmd buf)) 0 w v free empty (omega (arith, len)) (omega arith) in
    (h.0, h.1, λ k. h.2 k ∙ nothing_left k)
