-- ===== src/MultiRings.antt =====
-- Project/libsmoke/libs/sknx/src/shared/knx/multirings.h, as PKTWrapper uses it: one RingBuffer for
-- each sender, in a table of fixed length. A `RingType *` that `get` returns is the index of the
-- slot that owns the ring, so that what the caller writes through the pointer is a `put`.
pub mod Slots
pub mod Collect
pub mod Lookup
pub mod Put
mod Tests
use lib_smoke.Base.{
  ℕ, zero, suc, ◌+◌, ◌-◌, ◌%◌, ◌^◌, ◌≤◌, ◌<◌, ◌≡◌, List, [], ◌∷◌, Option, none, some, Bool, true,
  false, not, ◌&&◌, ltb, leb, ◌==◌, if◌then◌else◌, length, get_or, set, replicate,
}
use lib_smoke.Ring.{RingBuffer, add_size, create, size}

-- `buffers_t`. While `free` is true the other two fields are not read.
pub record Slot : Type 0 where
  pub free : Bool
  pub id : ℕ
  pub buf : RingBuffer

pub record MultiRings : Type 0 where
  pub num_free : ℕ
  pub max_rings : ℕ
  pub buffers : List Slot

abbrev pub no_slot : Slot
no_slot = record { free = true; id = 0; buf = create 0 }

abbrev pub slot : MultiRings → ℕ → Slot
slot m i = get_or m.buffers i no_slot

-- the constructor
unfoldable pub create_rings : ℕ → MultiRings
create_rings n = record { num_free = n; max_rings = n; buffers = replicate n no_slot }

unfoldable pub deallocate : MultiRings → ℕ → MultiRings
deallocate m i =
    if leb m.max_rings i
    then m
    else if not (slot m i).free && (size (slot m i).buf == 0)
    then record m {
      buffers = set m.buffers i (record (slot m i) { free = true; id = 0 });
      num_free = add_size m.num_free 1;
    }
    else m

-- the loop of `deallocateAll`, which leaves the counter of free slots
unfoldable pub free_all : List Slot → List Slot
free_all [] = []
free_all (s ∷ ss) = (if not s.free then record s { free = true } else s) ∷ free_all ss

unfoldable pub deallocate_all : MultiRings → MultiRings
deallocate_all m = record m { buffers = free_all m.buffers }

-- `for` over the indices from `i` on, `n` of them
unfoldable pub collect_from : ℕ → ℕ → MultiRings → MultiRings
collect_from zero i m = m
collect_from (suc n) i m =
    collect_from n (suc i) (if not (slot m i).free then deallocate m i else m)

unfoldable pub garbage_collect : MultiRings → MultiRings
garbage_collect m = if m.num_free == m.max_rings then m else collect_from m.max_rings 0 m

abbrev pub is_none : Option ℕ → Bool
is_none none = true
is_none (some _) = false

-- The search of `get`: `firstFree` and `rightBuf`, `none` for -1. The loop stops at the slot of
-- `key`.
unfoldable pub scan : ℕ → ℕ → Option ℕ → List Slot → Option ℕ × Option ℕ
scan key i first_free [] = (first_free, none)
scan key i first_free (s ∷ ss) =
    let first_free' = if s.free && is_none first_free then some i else first_free in
    if not s.free && (s.id == key) then (first_free', some i) else scan key (suc i) first_free' ss

unfoldable pub allocate : MultiRings → ℕ → ℕ → MultiRings
allocate m i key = record m {
  buffers = set m.buffers i (record { free = false; id = key; buf = create 1024 });
  num_free = (m.num_free + 2 ^ 64 - 1) % 2 ^ 64;
}

-- What a call of `get` comes to: a slot's ring, NULL, or a recursion deeper than the fuel.
pub data Got : Type 0 where
  ring : ℕ → MultiRings → Got
  null : MultiRings → Got
  unfinished : Got

unfoldable pub get_rec : ℕ → MultiRings → ℕ → Got
unfolding scan allocate
get_rec zero m key = unfinished
get_rec (suc fuel) m key =
    let (first_free, right_buf) = scan key 0 none m.buffers in
    elim right_buf [
      | some i ↦ ring i m
      | none ↦ elim first_free [
        | some i ↦ ring i (allocate m i key)
        | none ↦
            let collected = garbage_collect m in
            let again = get_rec fuel collected key in
            if collected.num_free == 0 then null collected else again
      ]
    ]

-- `get` calls itself at most once.
unfoldable pub get : MultiRings → ℕ → Got
unfolding get_rec
get m key = get_rec 2 m key

-- What the caller does to the ring behind the pointer.
unfoldable pub put : MultiRings → ℕ → RingBuffer → MultiRings
put m i r = record m { buffers = set m.buffers i (record (slot m i) { buf = r }) }
