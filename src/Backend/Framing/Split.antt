-- ===== src/Backend/Framing/Split.antt =====
-- The framing of a byte stream on lists: a telegram is seven bytes and as many more as the low
-- half of its sixth byte says.
use lib_smoke.Base.{
  ℕ, zero, suc, ◌+◌, ◌%◌, ◌^◌, ◌≤◌, ◌<◌, ◌≡◌, arith, List, [], ◌∷◌, ◌++◌, ◌||◌, ltb, if◌then◌else◌,
  length, take, drop, nth, length-append, length-drop, length-take, take-append, drop-append,
  nth-append, take-append_self, drop-append_self,
}
use native.Mathlib.Decide.{dec_lt}
use lib_smoke.Telegram.{Telegram, total_size}
use lib_smoke.Telegram.Wire.{IsWf, wire, wire-eq}

-- the length of the first telegram, once its header is there
abbrev pub frame_length : List ℕ → ℕ
frame_length bytes = 7 + nth bytes 5 % 2 ^ 4

-- What is left, and the bytes of the complete telegrams.
unfoldable pub split : ℕ → List ℕ → List ℕ × List (List ℕ)
split zero bytes = (bytes, [])
split (suc fuel) bytes =
    let n = frame_length bytes in
    let (left, frames) = split fuel (drop n bytes) in
    let more : List ℕ × List (List ℕ) = (left, take n bytes ∷ frames) in
    if ltb (length bytes) 7 || ltb (length bytes) n then (bytes, []) else more

abbrev pub split_all : List ℕ → List ℕ × List (List ℕ)
split_all bytes = split (suc (length bytes)) bytes

-- More fuel than bytes changes nothing.
pub split-fuel :
    (f g : ℕ) (bytes : List ℕ) → length bytes < f → length bytes < g → split f bytes ≡ split g bytes
unfolding split
split-fuel zero g bytes hf hg = absurd (omega arith)
split-fuel (suc f) zero bytes hf hg = absurd (omega arith)
split-fuel (suc f) (suc g) bytes hf hg = ground (
  arith,
  length-drop (frame_length bytes) bytes,
  split-fuel f g (drop (frame_length bytes) bytes),
)

split-left-le : (f : ℕ) (bytes : List ℕ) → length (split f bytes).0 ≤ length bytes
unfolding split
split-left-le zero bytes = omega arith
split-left-le (suc f) bytes = ground (
  arith,
  length-drop (frame_length bytes) bytes,
  split-left-le f (drop (frame_length bytes) bytes),
)

abbrev pub Complete : List ℕ → Type 0
Complete bytes = (7 ≤ length bytes) × (frame_length bytes ≤ length bytes)

pub split-incomplete :
    (f : ℕ) (bytes : List ℕ) → ¬ Complete bytes → split (suc f) bytes ≡ (bytes, [])
unfolding split
split-incomplete f bytes h = ground arith

pub split-Complete :
    (f : ℕ) (bytes : List ℕ)
    → Complete bytes
    → split (suc f) bytes ≡ (
        let n = frame_length bytes in
        let (left, frames) = split f (drop n bytes) in (left, take n bytes ∷ frames))
unfolding split
split-Complete f bytes h = ground arith

pub dec_complete : (bytes : List ℕ) → Dec (Complete bytes)
dec_complete bytes = elim (dec_lt (length bytes) 7) [
  | yes h ↦ no (λ c. omega (arith, c.0))
  | no h ↦ elim (dec_lt (length bytes) (frame_length bytes)) [
    | yes g ↦ no (λ c. omega (arith, c.1))
    | no g ↦ yes (omega arith, omega arith)
  ]
]

-- No whole telegram is left.
pub split-left_incomplete :
    (f : ℕ) (bytes : List ℕ) → length bytes < f → ¬ Complete (split f bytes).0
split-left_incomplete zero bytes h = absurd (omega arith)
split-left_incomplete (suc f) bytes h = elim (dec_complete bytes) [
  | no short ↦ rw (split-incomplete f bytes short) short
  | yes whole ↦ rw (split-Complete f bytes whole) (
      split-left_incomplete f (drop (frame_length bytes) bytes)
        (omega (arith, length-drop (frame_length bytes) bytes)))
]

-- Less than 22 bytes make up what is no whole telegram.
pub incomplete-lt : (bytes : List ℕ) → ¬ Complete bytes → length bytes < 22
incomplete-lt bytes h = elim (dec_lt (length bytes) 22) [
  | yes l ↦ l
  | no l ↦ absurd (h (omega arith, omega arith))
]

frame_length-append : (xs ys : List ℕ) → Complete xs → frame_length (xs ++ ys) ≡ frame_length xs
frame_length-append xs ys c = ground (arith, nth-append xs ys 5)

-- Splitting a stream in two parts: the second goes on from what the first left.
pub split-append :
    (f : ℕ) (xs ys : List ℕ)
    → length (xs ++ ys) < f
    → split f (xs ++ ys) ≡ (
        let (left, frames) = split f xs in
        let (left', frames') = split f (left ++ ys) in (left', frames ++ frames'))
split-append zero xs ys h = absurd (omega arith)
split-append (suc f) xs ys h = elim (dec_complete xs) [
  | no short ↦ rw (split-incomplete f xs short)
  | yes whole ↦
      let n = frame_length xs in
      let len = length-append xs ys in
      let e = frame_length-append xs ys whole in
      let left = (split f (drop n xs)).0 in
      let same : split (suc f) (left ++ ys) ≡ split f (left ++ ys) =
        split-fuel (suc f) f (left ++ ys)
          (omega (arith, len, length-append left ys, split-left-le f (drop n xs), length-drop n xs))
          (omega
            (arith, len, length-append left ys, split-left-le f (drop n xs), length-drop n xs)) in
      let ih =
        split-append f (drop n xs) ys
          (omega (arith, len, length-append (drop n xs) ys, length-drop n xs)) in
      ground (
        arith,
        e,
        same,
        ih,
        split-Complete f xs whole,
        split-Complete f (xs ++ ys) (omega (arith, len, e)),
        take-append n xs ys,
        drop-append n xs ys,
      )
]

-- The same, each time with fuel for all the bytes.
pub split_all-append :
    (xs ys : List ℕ)
    → split_all (xs ++ ys) ≡ (
        let (left, frames) = split_all xs in
        let (left', frames') = split_all (left ++ ys) in (left', frames ++ frames'))
split_all-append xs ys =
    let n = suc (length (xs ++ ys)) in
    let len = length-append xs ys in
    let left = (split n xs).0 in
    let len' = length-append left ys in
    ground (
      arith,
      split-append n xs ys (omega arith),
      split-fuel n (suc (length xs)) xs (omega (arith, len)) (omega arith),
      split-fuel n (suc (length (left ++ ys))) (left ++ ys)
          (omega (arith, len, len', split-left-le n xs)) (omega arith),
    )

-- The bytes of a telegram that was sent are one frame.
pub frame_length-wire :
    (t : Telegram) (rest : List ℕ) → IsWf t → frame_length (wire t ++ rest) ≡ total_size t
frame_length-wire t rest w = rw (wire-eq t) (omega arith)

pub length-wire : (t : Telegram) → IsWf t → length (wire t) ≡ total_size t
length-wire t w = rw (wire-eq t) (omega (arith, length-take (suc t.hdr_size) t.body))

abbrev pub wires : List Telegram → List ℕ
wires [] = []
wires (t ∷ ts) = wire t ++ wires ts

abbrev pub frames_of : List Telegram → List (List ℕ)
frames_of [] = []
frames_of (t ∷ ts) = wire t ∷ frames_of ts

abbrev pub AllWf : List Telegram → Type 0
AllWf [] = Unit {0}
AllWf (t ∷ ts) = IsWf t × AllWf ts

-- A stream of whole telegrams splits into just these.
pub split-wires :
    (f : ℕ) (ts : List Telegram)
    → AllWf ts
    → length (wires ts) < f
    → split f (wires ts) ≡ ([], frames_of ts)
split-wires zero ts w h = absurd (omega arith)
split-wires (suc f) [] w h = split-incomplete f [] (λ c. omega (arith, c.0))
split-wires (suc f) (t ∷ ts) w h =
    let e = frame_length-wire t (wires ts) w.0 in
    let l = length-wire t w.0 in
    let len = length-append (wire t) (wires ts) in
    let ih = split-wires f ts w.1 (omega (arith, l, len)) in
    rw (split-Complete f (wires (t ∷ ts)) (omega (arith, e, l, len)), e, ← l)
      (ground
        (arith, ih, take-append_self (wire t) (wires ts), drop-append_self (wire t) (wires ts)))
