-- ===== src/PktWrapper/Parse.antt =====
-- The packet stream of one sender, as a parser on lists of bytes: what `_recompose` is to compute.
use lib_smoke.Base.{
  append-nil, ℕ, zero, suc, ◌+◌, ◌*◌, ◌/◌, ◌%◌, ◌^◌, ◌<◌, ◌≡◌, refl, arith, List, [], ◌∷◌, ◌++◌,
  ltb, if◌then◌else◌, length, take, drop, length-append, length-take, take-append_self,
  drop-append_self,
}
use lib_smoke.Telegram.Endian.{to_big_endian_16, to_big_endian_16_twice}
use lib_smoke.PktWrapper.{Pkt, encode}

module _ (from to : ℕ) where
  -- The complete packets at the front, and the bytes that are left.
  unfoldable pub parse : ℕ → List ℕ → List ℕ × List Pkt
  parse (suc fuel) (c ∷ l₀ ∷ l₁ ∷ rest) =
      let n = to_big_endian_16 (l₀ + l₁ * 256) in
      let (left, packets) = parse fuel (drop n rest) in
      let more : List ℕ × List Pkt =
        (left, record { cmd = c; src = from; dest = to; payload = take n rest } ∷ packets) in
      if ltb (length rest) n then (c ∷ l₀ ∷ l₁ ∷ rest, []) else more
  parse fuel bytes = (bytes, [])

  -- A proper prefix of an encoded packet yields nothing and is kept.
  pub parse-prefix :
      (fuel cmd : ℕ) (buf : List ℕ) (k : ℕ)
      → length buf < 2 ^ 16
      → k < length (encode cmd buf)
      → parse fuel (take k (encode cmd buf)) ≡ (take k (encode cmd buf), [])
  unfolding parse encode
  parse-prefix zero cmd buf k h p = refl
  parse-prefix (suc fuel) cmd buf zero h p = refl
  parse-prefix (suc fuel) cmd buf (suc zero) h p = refl
  parse-prefix (suc fuel) cmd buf (suc (suc zero)) h p = refl
  parse-prefix (suc fuel) cmd buf (suc (suc (suc k))) h p =
      let size : ℕ = to_big_endian_16 (length buf) in
      let e : size % 256 + size / 256 * 256 ≡ size = omega arith in
      ground (arith, e, to_big_endian_16_twice (length buf) h, length-take k buf)

  -- A whole packet is taken from the front, and parsing goes on behind it.
  pub parse-encode :
      (fuel cmd : ℕ) (buf rest : List ℕ)
      → length buf < 2 ^ 16
      → parse (suc fuel) (encode cmd buf ++ rest) ≡ (
          let (left, packets) = parse fuel rest in
          (left, record { cmd = cmd; src = from; dest = to; payload = buf } ∷ packets))
  unfolding parse encode
  parse-encode fuel cmd buf rest h =
      let size : ℕ = to_big_endian_16 (length buf) in
      let e : size % 256 + size / 256 * 256 ≡ size = omega arith in
      ground (
        arith,
        e,
        to_big_endian_16_twice (length buf) h,
        length-append buf rest,
        take-append_self buf rest,
        drop-append_self buf rest,
      )

  pub parse-nil : (fuel : ℕ) → parse fuel [] ≡ ([], [])
  unfolding parse
  parse-nil zero = refl
  parse-nil (suc fuel) = refl

  -- A whole packet and nothing behind it.
  pub parse-encode_only :
      (fuel cmd : ℕ) (buf : List ℕ)
      → length buf < 2 ^ 16
      → parse (suc fuel) (encode cmd buf)
        ≡ ([], record { cmd = cmd; src = from; dest = to; payload = buf } ∷ [])
  parse-encode_only fuel cmd buf h =
      ground (arith, append-nil (encode cmd buf), parse-encode fuel cmd buf [] h, parse-nil fuel)
