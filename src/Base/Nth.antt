-- ===== src/Base/Nth.antt =====
-- Reading byte arrays by index, in `if` form, and extensionality.
use Prim.Native.Nat.{ℕ, zero, suc, ◌+◌, ◌-◌, ◌<◌, ◌≤◌}
use mathlib.Core.Path.{◌≡◌, refl, ap, ap₂}
use mathlib.Core.Bool.{◌&&◌}
use mathlib.Core.List.{List, [], ◌∷◌, ◌++◌}
use native.Mathlib.Omega.{arith}
use lib_smoke.Base.Tests.{ltb, leb, if◌then◌else◌}
use lib_smoke.Base.Lists.{length, get_or, take, drop, copy_at}

abbrev pub nth : List ℕ → ℕ → ℕ
nth xs i = get_or xs i 0

abbrev pub tabulate : ℕ → (ℕ → ℕ) → List ℕ
tabulate zero f = []
tabulate (suc n) f = f 0 ∷ tabulate n (λ i. f (suc i))

pub length-tabulate : (n : ℕ) (f : ℕ → ℕ) → length (tabulate n f) ≡ n
length-tabulate zero f = refl
length-tabulate (suc n) f = ap suc (length-tabulate n (λ i. f (suc i)))

pub nth-tabulate : (n : ℕ) (f : ℕ → ℕ) (i : ℕ) → i < n → nth (tabulate n f) i ≡ f i
nth-tabulate zero f i h = absurd (omega arith)
nth-tabulate (suc n) f zero h = refl
nth-tabulate (suc n) f (suc i) h = nth-tabulate n (λ i. f (suc i)) i (omega arith)

pub nth-append :
    (xs ys : List ℕ) (i : ℕ)
    → nth (xs ++ ys) i ≡ (if ltb i (length xs) then nth xs i else nth ys (i - length xs))
nth-append [] ys i = ground arith
nth-append (x ∷ xs) ys zero = ground arith
nth-append (x ∷ xs) ys (suc i) = ground (arith, nth-append xs ys i)

pub nth-take : (n : ℕ) (xs : List ℕ) (i : ℕ) → nth (take n xs) i ≡ (if ltb i n then nth xs i else 0)
nth-take zero xs i = ground arith
nth-take (suc n) [] i = ground arith
nth-take (suc n) (x ∷ xs) zero = ground arith
nth-take (suc n) (x ∷ xs) (suc i) = ground (arith, nth-take n xs i)

pub nth-drop : (n : ℕ) (xs : List ℕ) (i : ℕ) → nth (drop n xs) i ≡ nth xs (n + i)
nth-drop zero xs i = ap (nth xs) (omega arith)
nth-drop (suc n) [] i = refl
nth-drop (suc n) (x ∷ xs) i =
    let e : suc n + i ≡ suc (n + i) = omega arith in rw e (nth-drop n xs i)

pub nth-copy_at :
    (b : List ℕ) (x : ℕ) (s : List ℕ) (i : ℕ)
    → x + length s ≤ length b
    → nth (copy_at b x s) i ≡ (if leb x i && ltb i (x + length s) then nth s (i - x) else nth b i)
nth-copy_at [] x [] i h = ground arith
nth-copy_at [] x (y ∷ s) i h = absurd (omega arith)
nth-copy_at (b ∷ bs) zero [] i h = ground arith
nth-copy_at (b ∷ bs) zero (y ∷ s) zero h = ground arith
nth-copy_at (b ∷ bs) zero (y ∷ s) (suc i) h = ground (arith, nth-copy_at bs 0 s i)
nth-copy_at (b ∷ bs) (suc x) s zero h = ground arith
nth-copy_at (b ∷ bs) (suc x) s (suc i) h = ground (arith, nth-copy_at bs x s i)

pub ext :
    (xs ys : List ℕ)
    → length xs ≡ length ys
    → ((i : ℕ) → i < length xs → nth xs i ≡ nth ys i)
    → xs ≡ ys
ext [] [] e h = refl
ext [] (y ∷ ys) e h = absurd (omega arith)
ext (x ∷ xs) [] e h = absurd (omega arith)
ext (x ∷ xs) (y ∷ ys) e h =
    ap₂ ◌∷◌ (h 0 (omega arith)) (ext xs ys (omega arith) (λ i p. h (suc i) (omega arith)))
