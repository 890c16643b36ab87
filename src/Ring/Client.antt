-- ===== src/Ring/Client.antt =====
-- The facts about rings that the clients use: sizes that stay, and the calls that succeed.
use lib_smoke.Base.{sym, [], ℕ, ◌≤◌, ◌≡◌, refl, List, some, length, arith, take, drop}
use lib_smoke.Ring.Queue
use lib_smoke.Ring.{size, RingBuffer, create, write, peek, remove, read}
use lib_smoke.Ring.Bounds.{IsValid, remove-IsValid}
use lib_smoke.Ring.Refine.{contents, length-contents, peek_refines, remove_refines, read_refines}

pub contents-create : (n : ℕ) → contents (create n) ≡ []
unfolding create
contents-create n = refl

pub bufsize-write : (r : RingBuffer) (bytes : List ℕ) → (write r bytes).1.bufsize ≡ r.bufsize
unfolding write
bufsize-write r bytes = ground arith

pub bufsize-remove : (r : RingBuffer) (len : ℕ) → (remove r len).1.bufsize ≡ r.bufsize
unfolding remove
bufsize-remove r len = ground arith

pub bufsize-read : (r : RingBuffer) (len : ℕ) → (read r len).1.bufsize ≡ r.bufsize
unfolding read
bufsize-read r len = ground (arith, bufsize-remove r len)

pub read-IsValid : {r : RingBuffer} (len : ℕ) → IsValid r → IsValid (read r len).1
unfolding read
read-IsValid {r} len v = ground (arith, remove-IsValid len v)

pub size-length : (r : RingBuffer) → size r ≡ length (contents r)
unfolding size
size-length r = sym (length-contents r)

-- The operations where they succeed, on a ring that holds `q`.
module _ {r : RingBuffer} (q : List ℕ) (n : ℕ) (v : IsValid r) (e : contents r ≡ q)
    (h : n ≤ length q) where
  pub peek-some : peek r n ≡ some (take n q)
  unfolding Queue.peek
  peek-some = ground (arith, peek_refines n v)

  pub remove-some : contents (remove r n).1 ≡ drop n q
  unfolding Queue.remove
  remove-some = ground (arith, remove_refines n v)

  pub read-some : ((read r n).0 ≡ some (take n q)) × (contents (read r n).1 ≡ drop n q)
  unfolding Queue.read
  read-some = ground (arith, read_refines n v)
