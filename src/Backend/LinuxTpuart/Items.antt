-- ===== src/Backend/LinuxTpuart/Items.antt =====
-- The loop of `_process_packet` on what a TP-UART sends: confirmations, error codes and telegrams.
use lib_smoke.Base.{
  ℕ, suc, ◌+◌, ◌%◌, ◌^◌, ◌≤◌, ◌≡◌, ap, ◌∙◌, arith, List, [], ◌∷◌, ◌++◌, append-nil, append_assoc,
  some, Bool, false, not, ◌&&◌, ◌==◌, if◌then◌else◌, length, length-append, take, take-append_self,
  drop-append_self, nth, nth-take, nth-append,
}
use lib_smoke.Ring
use lib_smoke.Ring.{RingBuffer}
use lib_smoke.Ring.Bounds
use lib_smoke.Ring.Refine.{contents}
use lib_smoke.Ring.Client.{peek-some, remove-some, read-some, read-IsValid, size-length}
use lib_smoke.Telegram.{Telegram, src, check}
use lib_smoke.Telegram.Wire.{received}
use lib_smoke.Backend.Framing.Split.{frame_length}
use lib_smoke.Backend.LinuxTpuart.{confirm, error, data_packet, opcode, Rx, rounds}

pub data Item : Type 0 where
  confirmation error_code : ℕ → Item
  frame : List ℕ → Item

abbrev pub item_bytes : Item → List ℕ
item_bytes (confirmation b) = b ∷ []
item_bytes (error_code b) = b ∷ []
item_bytes (frame bytes) = bytes

-- the bytes are what the item says
abbrev pub IsItem : Item → Type 0
IsItem (confirmation b) = opcode b ≡ confirm
IsItem (error_code b) = opcode b ≡ error
IsItem (frame bytes) = (opcode (nth bytes 0) ≡ data_packet) × (length bytes ≡ frame_length bytes)

abbrev pub all_bytes : List Item → List ℕ
all_bytes [] = []
all_bytes (x ∷ xs) = item_bytes x ++ all_bytes xs

abbrev pub AllItems : List Item → Type 0
AllItems [] = Unit {0}
AllItems (x ∷ xs) = IsItem x × AllItems xs

-- whether a telegram is still on its way after the items
abbrev pub still_outgoing : Bool → List Item → Bool
still_outgoing out [] = out
still_outgoing out (confirmation b ∷ xs) = still_outgoing false xs
still_outgoing out (error_code b ∷ xs) = still_outgoing out xs
still_outgoing out (frame bytes ∷ xs) = still_outgoing out xs

module _ (id : ℕ) (junk : Telegram) where
  abbrev pub accepted_one : List ℕ → List Telegram
  accepted_one bytes =
      let t = received junk bytes in if not (src t == id) && check t then t ∷ [] else []

  -- the telegrams of other nodes that pass the check
  abbrev pub accepted : List Item → List Telegram
  accepted [] = []
  accepted (confirmation b ∷ xs) = accepted xs
  accepted (error_code b ∷ xs) = accepted xs
  accepted (frame bytes ∷ xs) = accepted_one bytes ++ accepted xs

  -- One round for the item at the front of the ring.
  confirm_round :
      (fuel b : ℕ) (q : List ℕ) (s : Rx)
      → Bounds.IsValid s.buffer
      → contents s.buffer ≡ b ∷ q
      → opcode b ≡ confirm
      → rounds (suc fuel) id junk s
        ≡ rounds fuel id junk (record s { buffer = (Ring.remove s.buffer 1).1; outgoing = false })
  unfolding rounds
  confirm_round fuel b q s v e o =
      ground (arith, o, size-length s.buffer, e, peek-some (b ∷ q) 1 v e (omega arith))

  error_round :
      (fuel b : ℕ) (q : List ℕ) (s : Rx)
      → Bounds.IsValid s.buffer
      → contents s.buffer ≡ b ∷ q
      → opcode b ≡ error
      → rounds (suc fuel) id junk s
        ≡ rounds fuel id junk (record s { buffer = (Ring.remove s.buffer 1).1 })
  unfolding rounds
  error_round fuel b q s v e o =
      ground (arith, o, size-length s.buffer, e, peek-some (b ∷ q) 1 v e (omega arith))

  frame_round :
      (fuel : ℕ) (bytes q : List ℕ) (s : Rx)
      → Bounds.IsValid s.buffer
      → contents s.buffer ≡ bytes ++ q
      → IsItem (frame bytes)
      → rounds (suc fuel) id junk s
        ≡ rounds fuel id junk (record s {
          buffer = (Ring.read s.buffer (length bytes)).1;
          packets = s.packets ++ accepted_one bytes;
        })
  unfolding rounds
  frame_round fuel bytes q s v e o =
      let long : 7 ≤ length bytes = omega (arith, o.1) in
      let l = length-append bytes q in
      let one = peek-some (bytes ++ q) 1 v e (omega arith) in
      let six = peek-some (bytes ++ q) 6 v e (omega arith) in
      let r = read-some (bytes ++ q) (length bytes) v e (omega arith) in
      let b0 : nth (take 1 (bytes ++ q)) 0 ≡ nth bytes 0 =
        ground (arith, nth-take 1 (bytes ++ q) 0, nth-append bytes q 0) in
      let b5 : nth (take 6 (bytes ++ q)) 5 ≡ nth bytes 5 =
        ground (arith, nth-take 6 (bytes ++ q) 5, nth-append bytes q 5) in
      let n : length bytes ≡ 7 + nth bytes 5 % 2 ^ 4 = o.1 in
      let whole = take-append_self bytes q in
      ground (arith, o.0, size-length s.buffer, e, l, one, six, b0, b5, n, r.0, whole, long)

  no_round :
      (s : Rx)
      → contents s.buffer ≡ []
      → rounds 0 id junk s ≡ some (record s { packets = s.packets ++ [] })
  unfolding rounds
  no_round s e = ground (arith, size-length s.buffer, e, append-nil s.packets)

  -- On a valid ring that holds confirmations, error codes and whole telegrams one after another, the
  -- loop ends after one round for each, with the ring empty: the telegrams of other nodes that pass the
  -- check are queued in order, and after a confirmation no telegram is on its way.
  pub rounds-AllItems :
      (xs : List Item) (s : Rx)
      → Bounds.IsValid s.buffer
      → contents s.buffer ≡ all_bytes xs
      → AllItems xs
      → (r : RingBuffer) × (rounds (length xs) id junk s
          ≡ some (record {
            buffer = r;
            outgoing = still_outgoing s.outgoing xs;
            packets = s.packets ++ accepted xs;
          }))
        × Bounds.IsValid r
        × (contents r ≡ [])
  rounds-AllItems [] s v e a = (s.buffer, no_round s e, v, e)
  rounds-AllItems (confirmation b ∷ xs) s v e a =
      let r = (Ring.remove s.buffer 1).1 in
      let ih =
        rounds-AllItems xs (record s { buffer = r; outgoing = false }) (Bounds.remove-IsValid 1 v)
          (remove-some (b ∷ all_bytes xs) 1 v e (omega arith)) a.1 in
      (ih.0, confirm_round (length xs) b (all_bytes xs) s v e a.0 ∙ ih.1, ih.2, ih.3)
  rounds-AllItems (error_code b ∷ xs) s v e a =
      let r = (Ring.remove s.buffer 1).1 in
      let ih =
        rounds-AllItems xs (record s { buffer = r }) (Bounds.remove-IsValid 1 v)
          (remove-some (b ∷ all_bytes xs) 1 v e (omega arith)) a.1 in
      (ih.0, error_round (length xs) b (all_bytes xs) s v e a.0 ∙ ih.1, ih.2, ih.3)
  rounds-AllItems (frame bytes ∷ xs) s v e a =
      let n = length bytes in
      let s' : Rx = record s {
        buffer = (Ring.read s.buffer n).1;
        packets = s.packets ++ accepted_one bytes;
      } in
      let l = length-append bytes (all_bytes xs) in
      let left = (read-some (bytes ++ all_bytes xs) n v e (omega arith)).1 in
      let ih =
        rounds-AllItems xs s' (read-IsValid n v) (left ∙ drop-append_self bytes (all_bytes xs))
          a.1 in
      (
        ih.0,
        frame_round (length xs) bytes (all_bytes xs) s v e a.0
            ∙ (ih.1
                ∙ ap
                    (λ l. some (record {
                      buffer = ih.0;
                      outgoing = still_outgoing s.outgoing xs;
                      packets = l;
                    }))
                    (append_assoc s.packets (accepted_one bytes) (accepted xs))),
        ih.2,
        ih.3,
      )
