-- ===== src/Ring/Queue.antt =====
-- What a byte ring promises: a first-in first-out queue of at most `cap` bytes.
use lib_smoke.Base.{
  ℕ, ◌+◌, List, ◌++◌, Option, none, some, Bool, true, false, ltb, if◌then◌else◌, length, take, drop,
}

unfoldable pub write : ℕ → List ℕ → List ℕ → Bool × List ℕ
write cap q bytes = if ltb cap (length q + length bytes) then (false, q) else (true, q ++ bytes)

unfoldable pub peek : List ℕ → ℕ → Option (List ℕ)
peek q len = if ltb (length q) len then none else some (take len q)

unfoldable pub remove : List ℕ → ℕ → Bool × List ℕ
remove q len = if ltb (length q) len then (false, q) else (true, drop len q)

unfoldable pub read : List ℕ → ℕ → Option (List ℕ) × List ℕ
read q len = if ltb (length q) len then (none, q) else (some (take len q), drop len q)
