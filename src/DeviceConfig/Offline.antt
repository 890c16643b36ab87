-- ===== src/DeviceConfig/Offline.antt =====
-- A device whose random generator did not start.
use lib_smoke.Base.{
  arith, ℕ, ◌≡◌, refl, List, true, false, not, ◌||◌, ltb, ◌==◌, length, Bool-cases, inl, inr,
}
use lib_smoke.Telegram.{Telegram}
use lib_smoke.PktWrapper.{PktWrapper}
use lib_smoke.Sban.{Polarssl, Arithmetic}
use lib_smoke.KeyExchange.{is_offline}
use lib_smoke.KeyExchange.Mka as Mka
use lib_smoke.KeyExchange.Mka.{Mka}
use lib_smoke.DeviceConfig.{Generator, DeviceConfig, seed, make_id, create, id, ctr_drbg_available}

module _ {Rng : Type 0} (g : Generator Rng) where
  -- The generator is available only if both calls of the constructor have returned 0.
  create-available :
      (rng : Rng) (memory : List ℕ)
      → ctr_drbg_available (create g rng memory) ≡ true
      → ((g.ctr_drbg_init (g.entropy_init rng) seed).0 == 0 ≡ true)
        × ((g.ctr_drbg_random (g.ctr_drbg_init (g.entropy_init rng) seed).1 memory).0 == 0 ≡ true)
  unfolding create make_id ctr_drbg_available
  create-available rng memory e =
      let r = g.ctr_drbg_init (g.entropy_init rng) seed in
      elim (Bool-cases (r.0 == 0)) [
        | inr n ↦ absurd (ground (arith, n, e))
        | inl y ↦ elim (Bool-cases ((g.ctr_drbg_random r.1 memory).0 == 0)) [
          | inl y' ↦ (y, y')
          | inr n ↦ absurd (ground (arith, y, n, e))
        ]
      ]

  -- Without the generator no MKA exchange begins, whatever its nodes.
  init-offline :
      {Mpi Point : Type 0} (p : Polarssl Mpi Point Rng) (q : Arithmetic Mpi Point)
      (config : DeviceConfig Rng) (junk : ℕ → Telegram) (memory nodes : List ℕ)
      (s : Mka Mpi Point Rng) (w : PktWrapper)
      → ctr_drbg_available config ≡ false
      → (Mka.init p q (id config) junk memory (ctr_drbg_available config) nodes s w).0 ≡ false
  unfolding Mka.init
  init-offline p q config junk memory nodes s w e = elim (Bool-cases (not (is_offline s.status))) [
    | inl y ↦ rw (y) refl
    | inr n ↦ elim (Bool-cases (ltb 255 (length nodes) || ltb (length nodes) 2)) [
      | inl y ↦ rw (n, y) refl
      | inr m ↦ rw (n, m, e) refl
    ]
  ]
