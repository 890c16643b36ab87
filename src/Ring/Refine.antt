-- ===== src/Ring/Refine.antt =====
-- A valid ring behaves as the queue of the bytes that it holds.
use lib_smoke.Base.{
  ℕ, ◌+◌, ◌-◌, ◌%◌, ◌^◌, ◌≤◌, ◌<◌, ◌≡◌, List, ◌++◌, ltb, leb, ◌&&◌, if◌then◌else◌, length, arith,
  take, drop, copy_at, length-append, length-take, length-drop, length-copy_at, nth, tabulate, ext,
  length-tabulate, nth-tabulate, nth-append, nth-take, nth-drop, nth-copy_at,
}
use native.Mathlib.Decide.{dec_lt}
use native.Mathlib.Nat.{mod-eq_of_lt, mod-eq-sub-mod}
use lib_smoke.Ring.Queue
use lib_smoke.Ring.{RingBuffer, write_bytes, write, peek, remove, read}
use lib_smoke.Ring.Bounds.{IsValid}

-- the stored bytes, oldest first
abbrev pub contents : RingBuffer → List ℕ
contents r = tabulate r.plen (λ i. nth r.buf ((r.pstart + i) % r.bufsize))

pub length-contents : (r : RingBuffer) → length (contents r) ≡ r.plen
length-contents r = length-tabulate r.plen (λ i. nth r.buf ((r.pstart + i) % r.bufsize))

nth-contents :
    (r : RingBuffer) (i : ℕ)
    → i < r.plen
    → nth (contents r) i ≡ nth r.buf ((r.pstart + i) % r.bufsize)
nth-contents r i h = nth-tabulate r.plen (λ i. nth r.buf ((r.pstart + i) % r.bufsize)) i h

mod_once : (p i b : ℕ) → p < b → i ≤ b → (p + i) % b ≡ (if ltb (p + i) b then p + i else p + i - b)
mod_once p i b hp hi = elim (dec_lt (p + i) b) [
  | yes h ↦ ground (arith, mod-eq_of_lt {n = p + i} {m = b} h)
  | no h ↦ ground (
    arith,
    mod-eq-sub-mod {n = p + i} {m = b} (omega arith),
    mod-eq_of_lt {n = p + i - b} {m = b} (omega arith),
  )
]

-- The one or two copies put the bytes at `x`, going round at `bufsize`.
nth-write_bytes :
    (r : RingBuffer) (x : ℕ) (bytes : List ℕ) (j : ℕ)
    → IsValid r
    → x < r.bufsize
    → length bytes ≤ r.bufsize
    → nth (write_bytes r x bytes) j ≡ (
        if leb x j && (ltb j (x + length bytes) && ltb j r.bufsize)
        then nth bytes (j - x)
        else if ltb (j + r.bufsize) (x + length bytes)
        then nth bytes (j + r.bufsize - x)
        else nth r.buf j)
unfolding write_bytes
nth-write_bytes r x bytes j v hx hn =
    let d : ℕ = r.bufsize - x in
    ground (
      arith,
      nth-copy_at r.buf x bytes j,
      nth-copy_at (copy_at r.buf x (take d bytes)) 0 (drop d bytes) j,
      nth-copy_at r.buf x (take d bytes) j,
      length-take d bytes,
      length-drop d bytes,
      length-copy_at r.buf x (take d bytes),
      nth-take d bytes (j - x),
      nth-drop d bytes j,
    )

module _ (r : RingBuffer) (bytes : List ℕ) (v : IsValid r)
    (fits : r.plen + length bytes ≤ r.bufsize) where
  after_write : RingBuffer
  after_write = record r {
    buf = write_bytes r ((r.pstart + r.plen) % r.bufsize) bytes;
    plen = r.plen + length bytes;
  }

  nth-after_write :
      (i : ℕ)
      → i < r.plen + length bytes
      → nth (contents after_write) i ≡ nth (contents r ++ bytes) i
  unfolding after_write
  nth-after_write i h = ground (
    arith,
    nth-contents after_write i,
    nth-contents r i,
    nth-append (contents r) bytes i,
    length-contents r,
    nth-write_bytes r ((r.pstart + r.plen) % r.bufsize) bytes ((r.pstart + i) % r.bufsize) v,
    mod_once r.pstart r.plen r.bufsize,
    mod_once r.pstart i r.bufsize,
  )

  contents-after_write : contents after_write ≡ contents r ++ bytes
  unfolding after_write
  contents-after_write =
      ext (contents after_write) (contents r ++ bytes)
        (omega
          (arith, length-contents after_write, length-contents r, length-append (contents r) bytes))
        (λ i h. nth-after_write i (omega (arith, length-contents after_write)))

-- On a valid ring, with fewer than 2^63 bytes: `write` succeeds exactly if the bytes fit, and then
-- appends them to the contents; else it returns false and changes nothing.
pub write_refines :
    {r : RingBuffer} (bytes : List ℕ)
    → length bytes < 2 ^ 63
    → IsValid r
    → (let (done, r') = write r bytes in (done, contents r'))
      ≡ Queue.write r.bufsize (contents r) bytes
unfolding write Queue.write after_write
write_refines {r} bytes h v = elim (dec_lt r.bufsize (r.plen + length bytes)) [
  | yes over ↦ ground (arith, length-contents r)
  | no fits ↦ ground (arith, length-contents r, contents-after_write r bytes v (omega arith))
]

module _ (r : RingBuffer) (len : ℕ) (v : IsValid r) (fits : len ≤ r.plen) where
  one_pass : r.pstart + len < r.bufsize → take len (drop r.pstart r.buf) ≡ take len (contents r)
  one_pass h =
      ext (take len (drop r.pstart r.buf)) (take len (contents r))
        (omega (
          arith,
          length-take len (drop r.pstart r.buf),
          length-drop r.pstart r.buf,
          length-take len (contents r),
          length-contents r,
        ))
        (λ i p. ground (
          arith,
          length-take len (drop r.pstart r.buf),
          nth-take len (drop r.pstart r.buf) i,
          nth-take len (contents r) i,
          nth-drop r.pstart r.buf i,
          nth-contents r i,
          mod_once r.pstart i r.bufsize,
        ))

  abbrev first : ℕ
  first = r.bufsize - r.pstart

  two_pass :
      r.bufsize ≤ r.pstart + len
      → take first (drop r.pstart r.buf) ++ take (len - first) r.buf ≡ take len (contents r)
  two_pass h =
      ext (take first (drop r.pstart r.buf) ++ take (len - first) r.buf) (take len (contents r))
        (omega (
          arith,
          length-append (take first (drop r.pstart r.buf)) (take (len - first) r.buf),
          length-take first (drop r.pstart r.buf),
          length-take (len - first) r.buf,
          length-drop r.pstart r.buf,
          length-take len (contents r),
          length-contents r,
        ))
        (λ i p. ground (
          arith,
          length-append (take first (drop r.pstart r.buf)) (take (len - first) r.buf),
          length-take first (drop r.pstart r.buf),
          length-take (len - first) r.buf,
          length-drop r.pstart r.buf,
          nth-append (take first (drop r.pstart r.buf)) (take (len - first) r.buf) i,
          nth-take first (drop r.pstart r.buf) i,
          nth-take (len - first) r.buf (i - first),
          nth-take len (contents r) i,
          nth-drop r.pstart r.buf i,
          nth-contents r i,
          mod_once r.pstart i r.bufsize,
        ))

  after_remove : RingBuffer
  after_remove = record r { pstart = (r.pstart + len) % r.bufsize; plen = r.plen - len }

  contents-after_remove : contents after_remove ≡ drop len (contents r)
  unfolding after_remove
  contents-after_remove =
      ext (contents after_remove) (drop len (contents r))
        (omega
          (arith, length-contents after_remove, length-drop len (contents r), length-contents r))
        (λ i p. ground (
          arith,
          length-contents after_remove,
          nth-contents after_remove i,
          nth-drop len (contents r) i,
          nth-contents r (len + i),
          mod_once r.pstart len r.bufsize,
          mod_once ((r.pstart + len) % r.bufsize) i r.bufsize,
          mod_once r.pstart (len + i) r.bufsize,
        ))

-- On a valid ring `peek` copies out the oldest `len` bytes if there are so many, and returns false otherwise.
pub peek_refines : {r : RingBuffer} (len : ℕ) → IsValid r → peek r len ≡ Queue.peek (contents r) len
unfolding peek Queue.peek
peek_refines {r} len v = elim (dec_lt r.plen len) [
  | yes over ↦ ground (arith, length-contents r)
  | no fits ↦
      ground
        (arith, length-contents r, one_pass r len v (omega arith), two_pass r len v (omega arith))
]

-- On a valid ring `remove` drops the oldest `len` bytes if there are so many; otherwise it returns
-- false and the contents stay.
pub remove_refines :
    {r : RingBuffer} (len : ℕ)
    → IsValid r
    → (let (done, r') = remove r len in (done, contents r')) ≡ Queue.remove (contents r) len
unfolding remove Queue.remove after_remove
remove_refines {r} len v = elim (dec_lt r.plen len) [
  | yes over ↦ ground (arith, length-contents r)
  | no fits ↦ ground (arith, length-contents r, contents-after_remove r len v (omega arith))
]

-- On a valid ring `read` hands out the oldest `len` bytes and drops them if there are so many;
-- otherwise it returns false and the contents stay.
pub read_refines :
    {r : RingBuffer} (len : ℕ)
    → IsValid r
    → (let (out, r') = read r len in (out, contents r')) ≡ Queue.read (contents r) len
unfolding read Queue.read Queue.peek Queue.remove
read_refines {r} len v = ground (arith, peek_refines len v, remove_refines len v)
