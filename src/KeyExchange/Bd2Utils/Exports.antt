-- ===== src/KeyExchange/Bd2Utils/Exports.antt =====
-- Where a behavior of BD2 has its key from.
use lib_smoke.Base.{
  ℕ, ◌-◌, ◌≡◌, ◌⊎◌, ap, refl, subst, List, [], ◌∷◌, Option, none, some, Bool, true, false, not,
  ◌==◌, if◌then◌else◌, length, Bool-cases, inl, inr,
}
use lib_smoke.Telegram.{Telegram}
use lib_smoke.PktWrapper
use lib_smoke.PktWrapper.{Pkt, PktWrapper}
use lib_smoke.Sban.{ok, Ret-cases, Polarssl}
use lib_smoke.Sban.Bd2.{
  Context, make_key, export_key, make_val, import_val, calc_key, make_public, read_public,
}
use lib_smoke.KeyExchange.Bd2Utils
use lib_smoke.KeyExchange.Bd2Utils.{
  World, Behavior, Role, chair_role, node_role, bufsize, when_inited, chair_z0, chair_xi, node_zi,
  filled, push, export, chair_init, send_values, chair_on_recv, node_init, take_public, take_value,
  node_on_recv, on_recv,
}
use lib_smoke.KeyExchange.Bd2Utils.Sends.{check-good, when_inited-good}

abbrev is_chair : Role → Bool
is_chair (chair_role n queue) = true
is_chair (node_role chair) = false

module _ {Mpi Point Rng : Type 0} (p : Polarssl Mpi Point Rng) where
  -- `keylen` and `key` are what `bd2_export_key` gave of a context for which `bd2_make_key` or
  -- `bd2_calc_key` had made a key
  abbrev pub Exported : ℕ → List ℕ → Type 0
  Exported keylen key =
      (c0 : Context Mpi Point) × (c : Context Mpi Point) × (rng : Rng) × (rng' : Rng) × ((make_key p
            (some c0) rng
          ≡ ok (c, rng'))
        ⊎ (calc_key p (some c0) rng ≡ ok (c, rng')))
      × (export_key p c bufsize ≡ ok (keylen, key))

  abbrev pub HasKey : Behavior Mpi Point → Type 0
  HasKey b = Exported b.keylen b.key

  -- a behavior has its key, or it is a node that has not completed
  abbrev pub Sound : Behavior Mpi Point → Type 0
  Sound b = HasKey b ⊎ ((is_chair b.role ≡ false) × (b.completed ≡ false))

  abbrev pub SoundOpt : Option (Behavior Mpi Point) → Type 0
  SoundOpt none = Unit {0}
  SoundOpt (some b) = Sound b

-- what both branches of `when_inited` have
when_inited-keeps :
    {A B C : Type 0} (P : B → Type 0) (o : Option A) (bad : Bool × B × C) (f : A → Bool × B × C)
    → P bad.1
    → ((a : A) → P (f a).1)
    → P (when_inited o bad f).1
when_inited-keeps P none bad f h g = h
when_inited-keeps P (some a) bad f h g = g a

module _ {Mpi Point Rng : Type 0} (p : Polarssl Mpi Point Rng) (id : ℕ) (junk : ℕ → Telegram)
    (memory : List ℕ) where
  -- the chair has its key from `init` on
  chair_init-HasKey :
      (b b' : Behavior Mpi Point) (s s' : World Rng)
      → chair_init p id junk memory b s ≡ (true, b', s')
      → HasKey p b'
  unfolding chair_init export
  chair_init-HasKey b b' s s' e =
      let (c0, o, e1) = when_inited-good b.ctx (b, s) _ (b', s') e in
      let (r, m, e2) = check-good (make_public p (some c0) bufsize s.rng) (b, s) _ (b', s') e1 in
      let b1 = record b { ctx = some r.0 } in
      let s1 : World Rng = record {
        rng = r.2;
        pkts = (PktWrapper.write_all id junk s.pkts chair_z0 (filled memory r.1)).1;
      } in
      let (k, made, e3) = check-good (make_key p (some r.0) r.2) (b1, s1) _ (b', s') e2 in
      let (x, exported, e4) =
        check-good (export_key p k.0 bufsize)
          (record b1 { ctx = some k.0 }, record s1 { rng = k.1 }) _ (b', s') e3 in
      let same = ap (λ (x : Bool × Behavior Mpi Point × World Rng). x.1) e4 in
      subst (λ (b : Behavior Mpi Point). HasKey p b) same (r.0, k.0, r.2, k.1, inl made, exported)

  send_values-HasKey :
      (n : ℕ) (c : Context Mpi Point) (b : Behavior Mpi Point) (s : World Rng)
      (queue : List (ℕ × List ℕ))
      → HasKey p b
      → HasKey p (send_values p id junk memory n c b s queue).1
  unfolding send_values
  send_values-HasKey n c b s [] h = h
  send_values-HasKey n c b s (k ∷ queue) h = elim (Ret-cases (read_public p (some c) k.1)) [
    | inr f ↦ rw f.1 h
    | inl c1 ↦ elim (Ret-cases (make_val p (some c1.0) bufsize s.rng)) [
      | inr f ↦ rw (c1.1, f.1) h
      | inl r ↦ rw (c1.1, r.1) (send_values-HasKey n r.0.0 b _ queue h)
    ]
  ]

  chair_on_recv-HasKey :
      (n : ℕ) (queue : List (ℕ × List ℕ)) (b : Behavior Mpi Point) (s : World Rng) (pkt : Pkt)
      → HasKey p b
      → HasKey p (chair_on_recv p id junk memory n queue b s pkt).1
  unfolding chair_on_recv
  chair_on_recv-HasKey n queue b s pkt h =
      when_inited-keeps (HasKey p) b.ctx (false, b, s) _ h
        λ c.
          let queue' = if pkt.cmd == node_zi then push (pkt.src, pkt.payload) queue else queue in
          elim (Bool-cases (not (length pkt.payload == bufsize))) [
            | inl y ↦ rw y h
            | inr size ↦ elim (Bool-cases (not (pkt.dest == id))) [
              | inl y ↦ rw (size, y) h
              | inr dest ↦ elim (Bool-cases (length queue' == n - 1)) [
                | inl y ↦ rw (size, dest, y) (send_values-HasKey n c b s queue' h)
                | inr more ↦ rw (size, dest, more) h
              ]
            ]
          ]

  take_public-Sound :
      (chair : ℕ) (c : Context Mpi Point) (b : Behavior Mpi Point) (s : World Rng) (pkt : Pkt)
      → Sound p b
      → Sound p (take_public p id junk memory chair c b s pkt).1
  unfolding take_public
  take_public-Sound chair c b s pkt h = elim (Ret-cases (read_public p (some c) pkt.payload)) [
    | inr f ↦ rw f.1 h
    | inl c1 ↦ elim (Ret-cases (make_public p (some c1.0) bufsize s.rng)) [
      | inr f ↦ rw (c1.1, f.1) h
      | inl r ↦ rw (c1.1, r.1) h
    ]
  ]

  take_value-Sound :
      (c : Context Mpi Point) (b : Behavior Mpi Point) (s : World Rng) (pkt : Pkt)
      → Sound p b
      → Sound p (take_value p id junk memory c b s pkt).1
  unfolding take_value export
  take_value-Sound c b s pkt h = elim (Ret-cases (import_val p (some c) pkt.payload)) [
    | inr f ↦ rw f.1 h
    | inl c1 ↦ elim (Ret-cases (calc_key p (some c1.0) s.rng)) [
      | inr f ↦ rw (c1.1, f.1) h
      | inl r ↦ elim (Ret-cases (export_key p r.0.0 bufsize)) [
        | inr f ↦ rw (c1.1, r.1, f.1) h
        | inl k ↦ rw (c1.1, r.1, k.1) (inl (c1.0, r.0.0, s.rng, r.0.1, inr r.1, k.1))
      ]
    ]
  ]

  node_on_recv-Sound :
      (chair : ℕ) (b : Behavior Mpi Point) (s : World Rng) (pkt : Pkt)
      → Sound p b
      → Sound p (node_on_recv p id junk memory chair b s pkt).1
  unfolding node_on_recv
  node_on_recv-Sound chair b s pkt h =
      when_inited-keeps (Sound p) b.ctx (false, b, s) _ h
        λ c. elim (Bool-cases (not (length pkt.payload == bufsize))) [
          | inl y ↦ rw y h
          | inr size ↦ elim (Bool-cases (not (pkt.src == chair))) [
            | inl y ↦ rw (size, y) h
            | inr src ↦ elim (Bool-cases (pkt.cmd == chair_z0)) [
              | inl y ↦ rw (size, src, y) (take_public-Sound chair c b s pkt h)
              | inr other ↦ elim (Bool-cases (pkt.cmd == chair_xi)) [
                | inl y ↦ rw (size, src, other, y) (take_value-Sound c b s pkt h)
                | inr n ↦ rw (size, src, other, n) h
              ]
            ]
          ]
        ]

  pub on_recv-Sound :
      (role : Role) (b : Behavior Mpi Point) (s : World Rng) (pkt : Pkt)
      → b.role ≡ role
      → Sound p b
      → Sound p (on_recv p id junk memory role b s pkt).1
  unfolding on_recv
  on_recv-Sound (node_role chair) b s pkt r h = node_on_recv-Sound chair b s pkt h
  on_recv-Sound (chair_role n queue) b s pkt r (inl h) =
      inl (chair_on_recv-HasKey n queue b s pkt h)
  on_recv-Sound (chair_role n queue) b s pkt r (inr h) = absurd (cc (h.0, ap is_chair r))

  -- a behavior that has started
  pub init-Sound :
      (role : Role) (b : Behavior Mpi Point) (w w' : World Rng)
      → Bd2Utils.init p id junk memory role (Bd2Utils.create p id junk memory role) w
        ≡ (true, b, w')
      → Sound p b
  unfolding Bd2Utils.init Bd2Utils.create node_init
  init-Sound (chair_role n queue) b w w' e = inl (chair_init-HasKey _ b w w' e)
  init-Sound (node_role chair) b w w' e =
      let start = Bd2Utils.create p id junk memory (node_role chair) in
      let (c, o, e1) = when_inited-good start.ctx (start, w) _ (b, w') e in
      let same = ap (λ (x : Bool × Behavior Mpi Point × World Rng). x.1) e1 in
      subst (Sound p) same (inr (refl, refl))
