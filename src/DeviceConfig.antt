-- ===== src/DeviceConfig.antt =====
-- Project/libsmoke/libs/sknx/src/shared/knx/config.h: what the whole device shares, its id and its
-- random generator. `Rng` is the state of the generator and of its entropy source. The object is a
-- singleton, which `create` makes on the first use.
pub mod Offline
use lib_smoke.Base.{ℕ, ◌+◌, ◌*◌, List, [], ◌∷◌, Bool, true, false, ◌==◌, if◌then◌else◌, nth}

-- polarssl's entropy and generator. A buffer goes in with what it holds, and comes back with what
-- the call left in it.
pub record Generator (Rng : Type 0) : Type 0 where
  pub entropy_init : Rng → Rng
  pub ctr_drbg_init : Rng → List ℕ → ℕ × Rng
  pub ctr_drbg_random : Rng → List ℕ → ℕ × Rng × List ℕ
  pub entropy_free : Rng → Rng

-- The members. The id is kept as the two bytes of its memory.
pub record DeviceConfig (Rng : Type 0) : Type 0 where
  pub rng : Rng
  pub random_inited : Bool
  pub own_id : List ℕ

-- "HopingToGetAGoodGrade.(C)2016 Al"
abbrev seed : List ℕ
seed =
    72 ∷ 111 ∷ 112 ∷ 105 ∷ 110 ∷ 103 ∷ 84 ∷ 111 ∷ 71 ∷ 101 ∷ 116 ∷ 65 ∷ 71 ∷ 111 ∷ 111 ∷ 100 ∷ 71
    ∷ 114 ∷ 97 ∷ 100 ∷ 101 ∷ 46 ∷ 40 ∷ 67 ∷ 41 ∷ 50 ∷ 48 ∷ 49 ∷ 54 ∷ 32 ∷ 65 ∷ 108 ∷ []

module _ {Rng : Type 0} (g : Generator Rng) where
  -- the second call of the constructor, which makes the id
  unfoldable pub make_id : DeviceConfig Rng → DeviceConfig Rng
  make_id s =
      let r = g.ctr_drbg_random s.rng s.own_id in
      record { rng = r.1; own_id = r.2; random_inited = if r.0 == 0 then true else s.random_inited }

  -- The constructor. `rng` and `memory` are what the memory of the object holds before it.
  unfoldable pub create : Rng → List ℕ → DeviceConfig Rng
  unfolding make_id
  create rng memory =
      let r = g.ctr_drbg_init (g.entropy_init rng) seed in
      let s : DeviceConfig Rng = record { rng = r.1; random_inited = false; own_id = memory } in
      if r.0 == 0 then make_id s else s

  -- `random`, with what the buffer holds; the result of the call is not looked at
  unfoldable random : DeviceConfig Rng → List ℕ → DeviceConfig Rng × List ℕ
  random s buffer = let r = g.ctr_drbg_random s.rng buffer in (record s { rng = r.1 }, r.2)

  -- `~DeviceConfig`
  unfoldable destroy : DeviceConfig Rng → DeviceConfig Rng
  destroy s = record s { rng = g.entropy_free s.rng }

module _ {Rng : Type 0} where
  -- `id`, on a machine whose integers are little-endian
  unfoldable pub id : DeviceConfig Rng → ℕ
  id s = nth s.own_id 0 + 256 * nth s.own_id 1

  -- `ctr_drbg_available`
  unfoldable pub ctr_drbg_available : DeviceConfig Rng → Bool
  ctr_drbg_available s = s.random_inited
