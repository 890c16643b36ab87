-- ===== src/KeyExchange/Neighbours.antt =====
-- `network_t` of Project/libsmoke/libs/sknx/src/shared/knx/crypto/gdh2_utils.h: a node's neighbours
-- when the nodes are put on a circle by their ids. `id` is `sKConfig.id()`.
pub mod Circle
pub mod Inverse
use lib_smoke.Base.{ℕ, ◌+◌, ◌%◌, ◌^◌, List, [], ◌∷◌, ◌||◌, ◌&&◌, ltb, leb, ◌==◌, if◌then◌else◌}

pub record Network : Type 0 where
  pub prev : ℕ
  pub next : ℕ
  pub first : ℕ
  pub last : ℕ
  pub pos : ℕ

-- one round of the loop, for the node `i`
unfoldable pub visit : ℕ → Network → ℕ → Network
visit id n i = record {
  first = if ltb i n.first then i else n.first;
  last = if ltb n.last i then i else n.last;
  prev = if ((n.prev == id) || (ltb n.prev id && ltb n.prev i)) && ltb i id then i else n.prev;
  next = if ((n.next == id) || (leb id n.next && ltb i n.next)) && ltb id i then i else n.next;
  pos = if ltb i id then (n.pos + 1) % 2 ^ 16 else n.pos;
}

unfoldable pub visit_all : ℕ → Network → List ℕ → Network
visit_all id n [] = n
visit_all id n (i ∷ nodes) = visit_all id (visit id n i) nodes

abbrev pub start : ℕ → Network
start id = record { prev = id; next = id; first = id; last = id; pos = 1 }

-- the two statements after the loop
unfoldable pub wrap : ℕ → Network → Network
wrap id n = record n {
  prev = if n.prev == id then n.last else n.prev;
  next = if n.next == id then n.first else n.next;
}

-- the constructor
unfoldable pub network : ℕ → List ℕ → Network
unfolding visit_all wrap
network id nodes = wrap id (visit_all id (start id) nodes)
