-- ===== src/PktWrapper/Extract.antt =====
-- The loop of `_recompose` on a valid ring parses the bytes that the ring holds.
use lib_smoke.Base.{ℕ, zero, suc, ◌+◌, ◌*◌, ◌≡◌, ap, refl, arith, List, [], ◌∷◌, some, length, nth}
use native.Mathlib.Decide.{dec_lt}
use lib_smoke.Ring
use lib_smoke.Ring.{RingBuffer}
use lib_smoke.Ring.Bounds
use lib_smoke.Ring.Refine.{contents}
use lib_smoke.Ring.Client.{
  bufsize-remove, bufsize-read, peek-some, remove-some, read-some, read-IsValid, size-length,
}
use lib_smoke.Telegram.Endian.{to_big_endian_16}
use lib_smoke.PktWrapper.{bytes_or, extract}
use lib_smoke.PktWrapper.Parse.{parse}

-- One round: what the loop has in hand if three bytes and then the whole packet are there.
module _ (r : RingBuffer) (c l₀ l₁ : ℕ) (rest : List ℕ) (v : Bounds.IsValid r)
    (e : contents r ≡ c ∷ l₀ ∷ l₁ ∷ rest) where
  abbrev after_header : RingBuffer
  after_header = (Ring.remove r 3).1

  header-peek : Ring.peek r 3 ≡ some (c ∷ l₀ ∷ l₁ ∷ [])
  header-peek = peek-some (c ∷ l₀ ∷ l₁ ∷ rest) 3 v e (omega arith)

  after_header-contents : contents after_header ≡ rest
  after_header-contents = remove-some (c ∷ l₀ ∷ l₁ ∷ rest) 3 v e (omega arith)

  after_header-IsValid : Bounds.IsValid after_header
  after_header-IsValid = Bounds.remove-IsValid 3 v

  size-eq : Ring.size r ≡ length rest + 3
  size-eq = omega (arith, size-length r, ap length e)

module _ (from to : ℕ) where
  pub extract-parse :
      (fuel : ℕ) (r : RingBuffer)
      → Bounds.IsValid r
      → (let (r', packets) = extract fuel from to r in (contents r', packets))
        ≡ parse from to fuel (contents r)
  unfolding extract parse
  extract-parse zero r v = refl
  extract-parse (suc fuel) r v = go (contents r) refl (extract-parse fuel)
    where
      go :
          (q : List ℕ)
          → contents r ≡ q
          → ((r' : RingBuffer)
              → Bounds.IsValid r'
              → (let (r'', packets) = extract fuel from to r' in (contents r'', packets))
                ≡ parse from to fuel (contents r'))
          → (let (r', packets) = extract (suc fuel) from to r in (contents r', packets))
            ≡ parse from to (suc fuel) q
      go [] e ih = ground (arith, size-length r)
      go (c ∷ []) e ih = ground (arith, size-length r)
      go (c ∷ l₀ ∷ []) e ih = ground (arith, size-length r)
      go (c ∷ l₀ ∷ l₁ ∷ rest) e ih =
          let n : ℕ = to_big_endian_16 (l₀ + l₁ * 256) in
          let r' : RingBuffer = (Ring.remove r 3).1 in
          let v' : Bounds.IsValid r' = after_header-IsValid r c l₀ l₁ rest v e in
          let e' = after_header-contents r c l₀ l₁ rest v e in
          let s = size-eq r c l₀ l₁ rest v e in
          elim (dec_lt (length rest) n) [
            | yes short ↦ ground (arith, header-peek r c l₀ l₁ rest v e, s)
            | no whole ↦ ground (
              arith,
              header-peek r c l₀ l₁ rest v e,
              s,
              read-some rest n v' e' (omega arith),
              ih (Ring.read r' n).1 (read-IsValid n v'),
            )
          ]

  pub extract-IsValid :
      (fuel : ℕ) (r : RingBuffer)
      → Bounds.IsValid r
      → Bounds.IsValid (extract fuel from to r).0 × ((extract fuel from to r).0.bufsize ≡ r.bufsize)
  unfolding extract
  extract-IsValid zero r v = (v, refl)
  extract-IsValid (suc fuel) r v =
      let hdr : List ℕ = bytes_or (Ring.peek r 3) [] in
      let n : ℕ = to_big_endian_16 (nth hdr 1 + nth hdr 2 * 256) in
      let r' : RingBuffer = (Ring.remove r 3).1 in
      ground (
        arith,
        v,
        extract-IsValid fuel (Ring.read r' n).1 (read-IsValid n (Bounds.remove-IsValid 3 v)),
        bufsize-remove r 3,
        bufsize-read r' n,
      )
