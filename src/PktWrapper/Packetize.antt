-- ===== src/PktWrapper/Packetize.antt =====
-- `_packetize`: the telegrams that it queues, and what a receiver has of each.
use lib_smoke.Base.{
  ℕ, zero, suc, ◌+◌, ◌-◌, ◌*◌, ◌/◌, ◌%◌, ◌^◌, ◌≤◌, ◌<◌, ◌≡◌, ap, sym, ◌∙◌, arith, List, [], ◌∷◌,
  ◌++◌, append_assoc, append-nil, true, ltb, ◌==◌, if◌then◌else◌, length, take, drop, length-take,
  length-drop, take-all,
}
use lib_smoke.Telegram.{
  Telegram, Config, normal, individual, group, broadcast, check, src, dest, body_size,
}
use lib_smoke.Telegram.Wire.{
  IsWf, wire, received, received-written, received_written-IsWf, write-new_config-IsWf,
}
use lib_smoke.PktWrapper.{PktWrapper, fragment, packetize_from, packetize}

module _ (id : ℕ) (junk : ℕ → Telegram) (to : ℕ) (buf : List ℕ) where
  -- the `n` telegrams from the `i`-th on
  abbrev pub fragments : ℕ → ℕ → List Telegram
  fragments zero i = []
  fragments (suc n) i = fragment id (junk i) to buf i ∷ fragments n (suc i)

  packetize_from-fragments :
      (n i : ℕ) (out : List Telegram) → packetize_from id junk to buf n i out ≡ out ++ fragments n i
  unfolding packetize_from
  packetize_from-fragments zero i out = sym (append-nil out)
  packetize_from-fragments (suc n) i out =
      packetize_from-fragments n (suc i) (out ++ (fragment id (junk i) to buf i ∷ []))
      ∙ append_assoc out (fragment id (junk i) to buf i ∷ []) (fragments n (suc i))

-- `len` bytes make as many telegrams as 15 goes into `len`, rounded up.
abbrev pub fragment_count : List ℕ → ℕ
fragment_count buf = (length buf + 14) / 15

-- `_packetize` queues one telegram for each 15 bytes of the packet, rounded up, in order, behind what
-- was queued before.
pub packetize-fragments :
    (id : ℕ) (junk : ℕ → Telegram) (w : PktWrapper) (to : ℕ) (buf : List ℕ)
    → packetize id junk w to buf
      ≡ record w { out_queue = w.out_queue ++ fragments id junk to buf (fragment_count buf) 0 }
unfolding packetize
packetize-fragments id junk w to buf =
    let e : length buf / 15 + (if ltb 0 (length buf % 15) then 1 else 0) ≡ fragment_count buf =
      ground arith in
    rw e (
      ap (λ q. record w { out_queue = q })
        (packetize_from-fragments id junk to buf (fragment_count buf) 0 w.out_queue))

-- the `i`-th piece of 15 bytes, the last one shorter
abbrev pub chunk : List ℕ → ℕ → List ℕ
chunk buf i = take 15 (drop (15 * i) buf)

-- the piece as the loop cuts it
abbrev piece : List ℕ → ℕ → List ℕ
piece buf i =
    let left = length buf - 15 * i in take (if ltb left 15 then left else 15) (drop (i * 15) buf)

piece-chunk : (buf : List ℕ) (i : ℕ) → piece buf i ≡ chunk buf i
piece-chunk buf i =
    let xs : List ℕ = drop (15 * i) buf in
    let e : i * 15 ≡ 15 * i = omega arith in
    rw e
      (ground (arith, take-all (length buf - 15 * i) xs, take-all 15 xs, length-drop (15 * i) buf))

length-piece-le : (buf : List ℕ) (i : ℕ) → length (piece buf i) ≤ 15
length-piece-le buf i =
    omega (arith, ap length (piece-chunk buf i), length-take 15 (drop (15 * i) buf))

-- What a receiver has of the `i`-th piece of `buf`, sent by `id` to `to`.
pub record Arrives (id to : ℕ) (buf : List ℕ) (i : ℕ) (t : Telegram) : Type 0 where
  pub wf : IsWf t
  pub checked : check t ≡ true
  pub from : src t ≡ id
  pub dest_same : dest t ≡ to
  pub bytes : take (body_size t) t.body ≡ chunk buf i

-- A fragment as it arrives, in memory that held `junk'`.
module _ (id : ℕ) (junk junk' : Telegram) (to : ℕ) (buf : List ℕ) (i : ℕ) where
  abbrev pub arrived : Telegram
  arrived = received junk' (wire (fragment id junk to buf i))

  pub arrived-Arrives :
      id < 2 ^ 16 → to < 2 ^ 16 → IsWf junk → IsWf junk' → Arrives id to buf i arrived
  unfolding fragment
  arrived-Arrives hi ht w w' =
      let dtype = if to == broadcast then group else individual in
      let c : Config = record { dest = to; priority = normal; dtype = dtype; routing_cnt = 0 } in
      let hb = length-piece-le buf i in
      let h = received-written id junk junk' c (piece buf i) hi ht hb w w' in
      record {
        wf = received_written-IsWf id junk junk' c (piece buf i) hi ht hb w w';
        checked = h.0;
        from = h.1;
        dest_same = h.2;
        bytes = h.5 ∙ piece-chunk buf i;
      }

pub fragment-IsWf :
    (id : ℕ) (junk : Telegram) (to : ℕ) (buf : List ℕ) (i : ℕ)
    → id < 2 ^ 16
    → to < 2 ^ 16
    → IsWf junk
    → IsWf (fragment id junk to buf i)
unfolding fragment
fragment-IsWf id junk to buf i hi ht w =
    let dtype = if to == broadcast then group else individual in
    let c : Config = record { dest = to; priority = normal; dtype = dtype; routing_cnt = 0 } in
    write-new_config-IsWf id junk c (piece buf i) hi ht (length-piece-le buf i) w
