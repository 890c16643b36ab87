-- ===== src/PktWrapper/Recompose.antt =====
-- `_recompose` and the bytes that are pending from each sender.
use lib_smoke.Base.{
  ℕ, zero, suc, ◌+◌, ◌^◌, ◌<◌, ◌≡◌, ◌≢◌, ap, ◌∙◌, refl, arith, List, [], ◌∷◌, ◌++◌, true, false,
  ◌⊎◌, inl, inr, ltb, ◌==◌, if◌then◌else◌, length, get_or, take, length-take,
}
use lib_smoke.Ring
use lib_smoke.Ring.{RingBuffer}
use lib_smoke.Ring.Bounds
use lib_smoke.Ring.Queue
use lib_smoke.Ring.Refine.{contents, write_refines}
use lib_smoke.Ring.Client.{bufsize-write, size-length}
use lib_smoke.Telegram.{Telegram, src, dest, body_size, check}
use lib_smoke.Telegram.Wire.{IsWf}
use lib_smoke.MultiRings
use lib_smoke.MultiRings.{MultiRings, Got, ring, null, unfinished, Slot, no_slot, slot, put}
use lib_smoke.MultiRings.Collect.{IsValid, AllValid, SlotValid}
use lib_smoke.MultiRings.Lookup.{pending, Busy, Serves, get-Serves}
use lib_smoke.MultiRings.Put.{put-pending}
use lib_smoke.PktWrapper.{Pkt, PktWrapper, extract, recompose_into, recompose}
use lib_smoke.PktWrapper.Parse.{parse}
use lib_smoke.PktWrapper.Extract.{extract-parse, extract-IsValid}

-- What the ring of 1024 bytes takes: all the bytes or none.
unfoldable pub accept : List ℕ → List ℕ → List ℕ
accept q bytes = if ltb 1024 (length q + length bytes) then q else q ++ bytes

abbrev pub body_bytes : Telegram → List ℕ
body_bytes t = take (body_size t) t.body

-- The stream of `t`'s sender with `t`'s bytes, parsed.
abbrev pub parsed : List ℕ → Telegram → List ℕ × List Pkt
parsed q t = let q' = accept q (body_bytes t) in parse (src t) (dest t) (suc (length q')) q'

abbrev pub Delivers : PktWrapper → Telegram → PktWrapper → Type 0
Delivers w t w' =
    ((w' ≡ w) × Busy (src t) w.buffers.buffers)
    ⊎ (IsValid w'.buffers
        × (w'.buffers.max_rings ≡ w.buffers.max_rings)
        × (w'.out_queue ≡ w.out_queue)
        × (w'.in_queue ≡ w.in_queue ++ (parsed (pending (src t) w.buffers.buffers) t).1)
        × ((k : ℕ)
            → pending k w'.buffers.buffers ≡ (
                if k == src t
                then (parsed (pending (src t) w.buffers.buffers) t).0
                else pending k w.buffers.buffers)))

AllValid-get : (ss : List Slot) (i : ℕ) → AllValid ss → SlotValid (get_or ss i no_slot)
AllValid-get [] i v = record { valid = λ f. cc; kilobyte = λ f. cc }
AllValid-get (s ∷ ss) zero v = v.0
AllValid-get (s ∷ ss) (suc i) v = AllValid-get ss i v.1

-- The ring of one sender, before and after.
module _ (r : RingBuffer) (t : Telegram) (v : Bounds.IsValid r) (kb : r.bufsize ≡ 1024)
    (wf : IsWf t) where
  abbrev filled_ring : RingBuffer
  filled_ring = (Ring.write r (body_bytes t)).1

  abbrev parsed_ring : RingBuffer × List Pkt
  parsed_ring = extract (suc (Ring.size filled_ring)) (src t) (dest t) filled_ring

  short_body : length (body_bytes t) < 2 ^ 63
  short_body = omega (arith, length-take (body_size t) t.body, wf.size_bits)

  filled_ring-IsValid : Bounds.IsValid filled_ring
  filled_ring-IsValid = Bounds.write-IsValid (body_bytes t) short_body v

  contents-filled_ring : contents filled_ring ≡ accept (contents r) (body_bytes t)
  unfolding accept Queue.write
  contents-filled_ring = ground (arith, kb, write_refines (body_bytes t) short_body v)

  parsed_ring-eq : (contents parsed_ring.0, parsed_ring.1) ≡ parsed (contents r) t
  parsed_ring-eq =
      extract-parse (src t) (dest t) (suc (Ring.size filled_ring)) filled_ring filled_ring-IsValid
      ∙ (ap (λ n. parse (src t) (dest t) (suc n) (contents filled_ring)) (size-length filled_ring)
          ∙ ap (λ (q : List ℕ). parse (src t) (dest t) (suc (length q)) q) contents-filled_ring)

  parsed_ring-IsValid : Bounds.IsValid parsed_ring.0 × (parsed_ring.0.bufsize ≡ 1024)
  parsed_ring-IsValid =
      let h =
        extract-IsValid (src t) (dest t) (suc (Ring.size filled_ring)) filled_ring
          filled_ring-IsValid in
      (h.0, omega (arith, h.1, bufsize-write r (body_bytes t), kb))

pub same_if :
    {a b c d : List ℕ} (k i j : ℕ)
    → i ≡ j
    → a ≡ b
    → c ≡ d
    → (if k == i then a else c) ≡ (if k == j then b else d)
same_if k i j e p q = ground arith

recompose_into-Delivers :
    (w : PktWrapper) (t : Telegram) (g : Got)
    → IsWf t
    → IsValid w.buffers
    → Serves (src t) w.buffers g
    → Delivers w t (recompose_into w t g)
unfolding recompose_into put
recompose_into-Delivers w t unfinished wf v s = absurd s
recompose_into-Delivers w t (null m) wf v s =
    inl (ap (λ (b : MultiRings). record w { buffers = b }) s.0, s.1)
recompose_into-Delivers w t (ring i m) wf v s =
    let sv = AllValid-get m.buffers i s.0.rings in
    let r : RingBuffer = (slot m i).buf in
    let rv = sv.valid s.3 in
    let kb = sv.kilobyte s.3 in
    let e = parsed_ring-eq r t rv kb wf ∙ ap (λ (q : List ℕ). parsed q t) s.5 in
    let left = ap (λ (x : List ℕ × List Pkt). x.0) e in
    let pv = parsed_ring-IsValid r t rv kb wf in
    let p = put-pending m i (parsed_ring r t rv kb wf).0 s.0 s.2 s.3 pv.0 pv.1 in
    inr (
      p.0,
      s.1,
      refl,
      ap (λ (x : List ℕ × List Pkt). w.in_queue ++ x.1) e,
      λ k. p.1 k ∙ same_if k (slot m i).id (src t) s.4 left (s.6 k),
    )

-- With a valid table, a well-formed telegram of another node that passes the check either finds every ring busy with pending bytes
-- of other senders and is dropped, or its bytes join the pending bytes of its sender, unless they
-- would make more than 1024; the complete packets at the front of the stream are queued in order,
-- the rest stays pending, and no other sender's bytes change.
pub recompose-Delivers :
    (id : ℕ) (w : PktWrapper) (t : Telegram)
    → IsWf t
    → IsValid w.buffers
    → src t ≢ id
    → check t ≡ true
    → Delivers w t (recompose id w t)
unfolding recompose
recompose-Delivers id w t wf v ne ok =
    let different : (src t == id) ≡ false = ground arith in
    rw (different, ok)
      (recompose_into-Delivers w t (MultiRings.get w.buffers (src t)) wf v
        (get-Serves (src t) w.buffers v))
