-- ===== src/Ring.antt =====
-- Project/libsmoke/libs/sknx/src/shared/knx/ringbuffer.h: a byte ring of fixed size. A method that
-- updates the object returns the new object beside its result; the array that `data` points to is
-- the list of its `len` bytes.
pub mod Queue
pub mod Bounds
pub mod Refine
pub mod Client
mod Tests
use lib_smoke.Base.{
  ℕ, ◌+◌, ◌-◌, ◌%◌, ◌^◌, List, ◌++◌, Option, none, some, Bool, true, false, ltb, if◌then◌else◌,
  length, take, drop, replicate, copy_at,
}

pub record RingBuffer : Type 0 where
  pub buf : List ℕ
  pub bufsize : ℕ
  pub pstart : ℕ
  pub plen : ℕ

-- `size_t` addition
abbrev pub add_size : ℕ → ℕ → ℕ
add_size a b = (a + b) % 2 ^ 64

-- `new uint8_t[bufsize]` leaves the bytes unspecified: they are taken as zeros, and no theorem
-- reads one before it is written.
unfoldable pub create : ℕ → RingBuffer
create size = record { buf = replicate size 0; bufsize = size; pstart = 0; plen = 0 }

-- The one or the two `memcpy` calls of `write`, at index `x`.
unfoldable pub write_bytes : RingBuffer → ℕ → List ℕ → List ℕ
write_bytes r x bytes =
    if ltb (add_size x (length bytes)) r.bufsize
    then copy_at r.buf x bytes
    else copy_at (copy_at r.buf x (take (r.bufsize - x) bytes)) 0 (drop (r.bufsize - x) bytes)

unfoldable pub write : RingBuffer → List ℕ → Bool × RingBuffer
unfolding write_bytes
write r bytes = if ltb r.bufsize (add_size r.plen (length bytes)) then (false, r) else (
  true,
  record r {
    buf = write_bytes r (add_size r.pstart r.plen % r.bufsize) bytes;
    plen = add_size r.plen (length bytes);
  },
)

-- What `peek` copies out, `none` where it returns false.
unfoldable pub peek : RingBuffer → ℕ → Option (List ℕ)
peek r len =
    if ltb r.plen len
    then none
    else if ltb (add_size r.pstart len) r.bufsize
    then some (take len (drop r.pstart r.buf))
    else some (
        take (r.bufsize - r.pstart) (drop r.pstart r.buf)
        ++ take (len - (r.bufsize - r.pstart)) r.buf)

unfoldable pub remove : RingBuffer → ℕ → Bool × RingBuffer
remove r len =
    if ltb r.plen len
    then (false, r)
    else (true, record r { pstart = add_size r.pstart len % r.bufsize; plen = r.plen - len })

-- `!peek(data, len) || !remove(len)`: the bytes on success, and the new ring.
unfoldable pub read : RingBuffer → ℕ → Option (List ℕ) × RingBuffer
read r len = elim (peek r len) [
  | none ↦ (none, r)
  | some bytes ↦ let (done, r') = remove r len in if done then (some bytes, r') else (none, r')
]

unfoldable pub size : RingBuffer → ℕ
size r = r.plen
