-- ===== src/Backend/Framing/Stream.antt =====
-- `_process_packet` over a whole stream: the telegrams do not depend on how the stream was cut.
use lib_smoke.Base.{
  ℕ, zero, suc, ◌+◌, ◌%◌, ◌^◌, ◌≤◌, ◌≡◌, ap, sym, ◌∙◌, ap₂, refl, arith, List, [], ◌∷◌, ◌++◌,
  append_assoc, append-nil, length, nth, nth-take,
}
use native.Mathlib.Decide.{dec_lt}
use lib_smoke.Ring
use lib_smoke.Ring.{RingBuffer}
use lib_smoke.Ring.Bounds
use lib_smoke.Ring.Queue
use lib_smoke.Ring.Refine.{contents, write_refines}
use lib_smoke.Ring.Client.{
  peek-some, read-some, read-IsValid, bufsize-read, bufsize-write, size-length,
}
use lib_smoke.Telegram.{Telegram}
use lib_smoke.Telegram.Wire.{received}
use lib_smoke.Backend.Framing.{bytes_or_none, cut, process_packet}
use lib_smoke.Backend.Framing.Split.{
  split, frame_length, Complete, split-incomplete, split-left_incomplete, incomplete-lt, split_all,
  split_all-append,
}

abbrev pub receive_all : Telegram → List (List ℕ) → List Telegram
receive_all junk [] = []
receive_all junk (f ∷ fs) = received junk f ∷ receive_all junk fs

pub receive_all-append :
    (junk : Telegram) (xs ys : List (List ℕ))
    → receive_all junk (xs ++ ys) ≡ receive_all junk xs ++ receive_all junk ys
receive_all-append junk [] ys = refl
receive_all-append junk (x ∷ xs) ys = ap (λ t. received junk x ∷ t) (receive_all-append junk xs ys)

abbrev pub flatten : List (List ℕ) → List ℕ
flatten [] = []
flatten (piece ∷ pieces) = piece ++ flatten pieces

abbrev pub Short : List (List ℕ) → Type 0
Short [] = Unit {0}
Short (piece ∷ pieces) = (length piece ≤ 128) × Short pieces

-- The ring between two calls: valid, of 256 bytes, with no whole telegram in it.
pub record IsReady (r : RingBuffer) : Type 0 where
  pub valid : Bounds.IsValid r
  pub bufsize : r.bufsize ≡ 256
  pub incomplete : ¬ Complete (contents r)

module _ (junk : Telegram) where
  -- The loop splits the bytes that the ring holds.
  cut-split :
      (fuel : ℕ) (r : RingBuffer)
      → Bounds.IsValid r
      → ◌≡◌ {A = List ℕ × List Telegram}
          (let (r', telegrams) = cut fuel junk r in (contents r', telegrams))
          (let (left, frames) = split fuel (contents r) in (left, receive_all junk frames))
  unfolding cut split
  cut-split zero r v = refl
  cut-split (suc fuel) r v =
      let q : List ℕ = contents r in
      let s = size-length r in
      elim (dec_lt (length q) 7) [
        | yes few ↦ ground (arith, s)
        | no enough ↦
            let p = peek-some q 6 v refl (omega arith) in
            let five = nth-take 6 q 5 in
            elim (dec_lt (length q) (frame_length q)) [
              | yes short ↦ ground (arith, s, p, five)
              | no whole ↦
                  let n : ℕ = frame_length q in
                  ground (
                    arith,
                    s,
                    p,
                    five,
                    read-some q n v refl (omega arith),
                    cut-split fuel (Ring.read r n).1 (read-IsValid n v),
                  )
            ]
      ]

  cut-IsValid :
      (fuel : ℕ) (r : RingBuffer)
      → Bounds.IsValid r
      → Bounds.IsValid (cut fuel junk r).0 × ((cut fuel junk r).0.bufsize ≡ r.bufsize)
  unfolding cut
  cut-IsValid zero r v = (v, refl)
  cut-IsValid (suc fuel) r v =
      let n : ℕ = 6 + 1 + nth (bytes_or_none (Ring.peek r 6)) 5 % 2 ^ 4 in
      ground (arith, v, cut-IsValid fuel (Ring.read r n).1 (read-IsValid n v), bufsize-read r n)

  process_packet-nil : (s : RingBuffer × List Telegram) → process_packet junk s [] ≡ s
  unfolding process_packet
  process_packet-nil s = refl

  process_packet-cons :
      (r : RingBuffer) (pkts : List Telegram) (b : ℕ) (bs : List ℕ)
      → let r' = (Ring.write r (b ∷ bs)).1 in
        let s = cut (suc (Ring.size r')) junk r' in
        process_packet junk (r, pkts) (b ∷ bs) ≡ (s.0, pkts ++ s.1)
  unfolding process_packet
  process_packet-cons r pkts b bs = ground arith

  contents-write :
      (r : RingBuffer) (buf : List ℕ)
      → IsReady r
      → length buf ≤ 128
      → contents (Ring.write r buf).1 ≡ contents r ++ buf
  unfolding Queue.write
  contents-write r buf w small = ground (
    arith,
    w.bufsize,
    incomplete-lt (contents r) w.incomplete,
    write_refines buf (omega arith) w.valid,
  )

  cut-written :
      (r : RingBuffer) (buf : List ℕ)
      → IsReady r
      → length buf ≤ 128
      → let r' = (Ring.write r buf).1 in
        let s = cut (suc (Ring.size r')) junk r' in
        let bytes = contents r ++ buf in
        let parts = split_all bytes in
        IsReady s.0 × (contents s.0 ≡ parts.0) × (s.1 ≡ receive_all junk parts.1)
  cut-written r buf w small =
      let r' : RingBuffer = (Ring.write r buf).1 in
      let v' : Bounds.IsValid r' = Bounds.write-IsValid buf (omega arith) w.valid in
      let bytes : List ℕ = contents r ++ buf in
      let e : contents r' ≡ bytes = contents-write r buf w small in
      let fuel : Ring.size r' ≡ length bytes = size-length r' ∙ ap length e in
      let c = cut-split (suc (Ring.size r')) r' v' in
      let q : split (suc (Ring.size r')) (contents r') ≡ split (suc (length bytes)) bytes =
        ap₂ (λ n l. split (suc n) l) fuel e in
      let left =
        ap (λ (x : List ℕ × List Telegram). x.0) c ∙ ap (λ (x : List ℕ × List (List ℕ)). x.0) q in
      let cv = cut-IsValid (suc (Ring.size r')) r' v' in
      (
        record {
          valid = cv.0;
          bufsize = cv.1 ∙ (bufsize-write r buf ∙ w.bufsize);
          incomplete = rw left (split-left_incomplete (suc (length bytes)) bytes (omega arith));
        },
        left,
        ap (λ (x : List ℕ × List Telegram). x.1) c
            ∙ ap (λ (x : List ℕ × List (List ℕ)). receive_all junk x.1) q,
      )

  -- One call takes in all the bytes: they never run into the end of the 256-byte ring.
  pub process_packet-split :
      (r : RingBuffer) (pkts : List Telegram) (buf : List ℕ)
      → IsReady r
      → length buf ≤ 128
      → let s = process_packet junk (r, pkts) buf in
        let bytes = contents r ++ buf in
        let parts = split_all bytes in
        IsReady s.0 × (contents s.0 ≡ parts.0) × (s.1 ≡ pkts ++ receive_all junk parts.1)
  process_packet-split r pkts [] w small =
      let q = split-incomplete (length (contents r)) (contents r) w.incomplete in
      rw (process_packet-nil, append-nil, q) (w, refl, sym (append-nil pkts))
  process_packet-split r pkts (b ∷ bs) w small =
      let c = cut-written r (b ∷ bs) w small in
      rw process_packet-cons (c.0, c.1, ap (λ l. pkts ++ l) c.2)

  -- `_process_packet` for each piece of the stream.
  unfoldable pub process_all :
      RingBuffer × List Telegram → List (List ℕ) → RingBuffer × List Telegram
  process_all s [] = s
  process_all s (piece ∷ pieces) = process_all (process_packet junk s piece) pieces

  -- On a ready ring (valid, of 256 bytes, holding no whole telegram): however a stream is cut into pieces of at most 128 bytes, the telegrams that are queued and the
  -- bytes that stay in the ring are those of the whole stream: nothing is lost, doubled or torn.
  pub process_all-split :
      (r : RingBuffer) (pkts : List Telegram) (pieces : List (List ℕ))
      → IsReady r
      → Short pieces
      → let s = process_all (r, pkts) pieces in
        let bytes = contents r ++ flatten pieces in
        let parts = split_all bytes in
        IsReady s.0 × (contents s.0 ≡ parts.0) × (s.1 ≡ pkts ++ receive_all junk parts.1)
  unfolding process_all
  process_all-split r pkts [] w h =
      let q = split-incomplete (length (contents r)) (contents r) w.incomplete in
      rw (append-nil, q) (w, refl, sym (append-nil pkts))
  process_all-split r pkts (piece ∷ pieces) w h =
      let p = process_packet-split r pkts piece w h.0 in
      let s : RingBuffer × List Telegram = process_packet junk (r, pkts) piece in
      let ih = process_all-split s.0 s.1 pieces p.0 h.1 in
      let e = split_all-append (contents r ++ piece) (flatten pieces) in
      let rest = ap (λ l. receive_all junk (split_all (l ++ flatten pieces)).1) p.1 in
      let left = ap (λ l. (split_all (l ++ flatten pieces)).0) p.1 in
      (
        ih.0,
        rw (← append_assoc, e) (ih.1 ∙ left),
        rw (← append_assoc, e, receive_all-append, ← append_assoc) (ih.2 ∙ ap₂ ◌++◌ p.2 rest),
      )
