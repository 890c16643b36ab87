-- ===== src/Ring/Bounds.antt =====
-- The representation invariant of `RingBuffer`: no `size_t` sum wraps, no copy leaves the array.
use lib_smoke.Base.{
  refl, ℕ, ◌-◌, ◌%◌, ◌^◌, ◌≤◌, ◌<◌, ◌≡◌, List, length, arith, take, drop, copy_at, length-copy_at,
  length-replicate,
}
use lib_smoke.Ring.{RingBuffer, add_size, create, write_bytes, write, remove}

pub record IsValid (r : RingBuffer) : Type 0 where
  pub storage : length r.buf ≡ r.bufsize
  pub small : r.bufsize < 2 ^ 63
  pub start_in : r.pstart < r.bufsize
  pub len_in : r.plen ≤ r.bufsize

pub create-IsValid : (n : ℕ) → 0 < n → n < 2 ^ 63 → IsValid (create n)
unfolding create
create-IsValid n p q = omega (arith, length-replicate {A = ℕ} n 0)

pub length-write_bytes :
    (r : RingBuffer) (x : ℕ) (bytes : List ℕ) → length (write_bytes r x bytes) ≡ length r.buf
unfolding write_bytes
length-write_bytes r x bytes = ground (
  arith,
  length-copy_at r.buf x bytes,
  length-copy_at r.buf x (take (r.bufsize - x) bytes),
  length-copy_at (copy_at r.buf x (take (r.bufsize - x) bytes)) 0 (drop (r.bufsize - x) bytes),
)

-- `write` of fewer than 2^63 bytes keeps a ring valid: the buffer has its size, which is positive
-- and below 2^63, the start is inside it, and it holds no more bytes than fit.
pub write-IsValid :
    {r : RingBuffer} (bytes : List ℕ)
    → length bytes < 2 ^ 63
    → IsValid r
    → IsValid (write r bytes).1
unfolding write
write-IsValid {r} bytes h v =
    ground (arith, length-write_bytes r (add_size r.pstart r.plen % r.bufsize) bytes)

pub remove-IsValid : {r : RingBuffer} (len : ℕ) → IsValid r → IsValid (remove r len).1
unfolding remove
remove-IsValid {r} len v = ground arith

pub bufsize-create : (n : ℕ) → (create n).bufsize ≡ n
unfolding create
bufsize-create n = refl
