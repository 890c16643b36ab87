-- ===== src/KeyExchange/Bd2/Keyed.antt =====
-- The key of a completed BD2 exchange.
use lib_smoke.Base.{
  ℕ, ◌≡◌, ◌≢◌, ap, refl, List, [], ◌∷◌, Option, none, some, Bool, true, false, ◌||◌, ltb, ◌==◌,
  if◌then◌else◌, length, Bool-cases, inl, inr,
}
use lib_smoke.Telegram.{Telegram}
use lib_smoke.PktWrapper.{Pkt, PktWrapper}
use lib_smoke.Sban.{Polarssl}
use lib_smoke.Sban.Bd2.{}
use lib_smoke.KeyExchange.{key_running, key_completed, is_offline, is_running}
use lib_smoke.KeyExchange.Policies.{get_node}
use lib_smoke.KeyExchange.Bd2Utils
use lib_smoke.KeyExchange.Bd2Utils.{
  World, Behavior, Role, chair_role, node_role, bufsize, when_inited, chair_z0, chair_xi, node_zi,
  filled, push, export, chair_init, send_values, chair_on_recv, node_init, take_public, take_value,
  node_on_recv, on_recv,
}
use lib_smoke.KeyExchange.Bd2.{Bd2, has_completed, init_behavior, init, shutdown, deliver, update}
use lib_smoke.KeyExchange.Bd2.Status.{Reachable, created, inits, updates, shuts_down}
use lib_smoke.KeyExchange.Bd2Utils.Exports.{HasKey, Sound, SoundOpt, on_recv-Sound, init-Sound}

module _ {Mpi Point Rng : Type 0} (p : Polarssl Mpi Point Rng) (id : ℕ) (junk : ℕ → Telegram)
    (memory : List ℕ) (available : Bool) where
  deliver-Sound :
      (b : Option (Behavior Mpi Point)) (w : World Rng) (packets : List Pkt)
      → SoundOpt p b
      → SoundOpt p (deliver p id junk memory available b w packets).1
  unfolding deliver
  deliver-Sound b w [] h = h
  deliver-Sound none w (packet ∷ packets) h = deliver-Sound none w packets h
  deliver-Sound (some b) w (packet ∷ packets) h =
      let r = on_recv p id junk memory b.role b w packet in
      let next = on_recv-Sound p id junk memory b.role b w packet refl h in
      elim (Bool-cases r.0) [
        | inl good ↦ rw good (deliver-Sound (some r.1) r.2 packets next)
        | inr bad ↦ rw bad next
      ]

  -- whether the behavior, if there is one, has completed
  abbrev Done : Option (Behavior Mpi Point) → Type 0
  Done none = ⊥
  Done (some b) = b.completed ≡ true

  abbrev IsKeyed : Bd2 Mpi Point Rng → Type 0
  IsKeyed s = SoundOpt p s.behavior × (s.status ≡ key_completed → Done s.behavior)

  has_completed-Done : (b : Option (Behavior Mpi Point)) → has_completed b ≡ true → Done b
  has_completed-Done none e = absurd (cc e)
  has_completed-Done (some b) e = e

  update-IsKeyed :
      (s : Bd2 Mpi Point Rng) (w : PktWrapper)
      → IsKeyed s
      → IsKeyed (update p id junk memory available s w).1
  unfolding update
  update-IsKeyed s w h =
      let d =
        deliver p id junk memory available s.behavior (record { rng = s.rng; pkts = w })
          w.in_queue in
      let sound = deliver-Sound s.behavior (record { rng = s.rng; pkts = w }) w.in_queue h.0 in
      elim (Bool-cases (is_running s.status)) [
        | inr n ↦ rw n h
        | inl r ↦
            let running : s.status ≢ key_completed = λ f. absurd (cc (r, ap is_running f)) in
            elim (Bool-cases d.0) [
              | inr bad ↦ rw (r, bad) (sound, λ f. absurd (running f))
              | inl good ↦ elim (Bool-cases (has_completed d.1)) [
                | inl c ↦ rw (r, good, c) (sound, λ f. has_completed-Done d.1 c)
                | inr c ↦ rw (r, good, c) (sound, λ f. absurd (running f))
              ]
            ]
      ]

  init_behavior-IsKeyed :
      (r : Bool × Behavior Mpi Point × World Rng) (s : Bd2 Mpi Point Rng)
      → s.status ≢ key_completed
      → ((b : Behavior Mpi Point) (w : World Rng) → r ≡ (true, b, w) → Sound p b)
      → IsKeyed (init_behavior p id junk memory available r s).1
  init_behavior-IsKeyed (true, b, w) s n h = (h b w refl, λ f. absurd (n f))
  init_behavior-IsKeyed (false, b, w) s n h = (tt, λ f. absurd (n f))

  init-IsKeyed :
      (nodes : List ℕ) (s : Bd2 Mpi Point Rng) (w : PktWrapper)
      → IsKeyed s
      → IsKeyed (init p id junk memory available nodes s w).1
  unfolding init
  init-IsKeyed nodes s w h =
      let role =
        if id == get_node nodes then chair_role (length nodes) [] else node_role (get_node nodes) in
      elim (Bool-cases (is_offline s.status)) [
        | inr n ↦ rw n h
        | inl o ↦ elim (Bool-cases (ltb 255 (length nodes) || ltb (length nodes) 2)) [
          | inl big ↦ rw (o, big) h
          | inr small ↦ elim (Bool-cases available) [
            | inr n ↦ rw (o, small, n) (h.0, λ f. absurd (cc f))
            | inl a ↦
                rw (o, small, a)
                  (init_behavior-IsKeyed
                    (Bd2Utils.init p id junk memory role (Bd2Utils.create p id junk memory role)
                      (record { rng = s.rng; pkts = w }))
                    (record s { status = key_running; nodes = nodes }) (λ f. absurd (cc f))
                    (λ b w' e.
                      init-Sound p id junk memory role b (record { rng = s.rng; pkts = w }) w' e))
          ]
        ]
      ]

  Reachable-IsKeyed : (s : Bd2 Mpi Point Rng) → Reachable p id junk memory available s → IsKeyed s
  unfolding shutdown
  Reachable-IsKeyed _ (created rng) = (tt, λ f. absurd (cc f))
  Reachable-IsKeyed _ (inits nodes s w r) = init-IsKeyed nodes s w (Reachable-IsKeyed s r)
  Reachable-IsKeyed _ (updates s w r) = update-IsKeyed s w (Reachable-IsKeyed s r)
  Reachable-IsKeyed _ (shuts_down s r) = (tt, λ f. absurd (cc f))

  -- the behavior has completed, and its key is one that was exported
  abbrev pub Completed : Option (Behavior Mpi Point) → Type 0
  Completed o = (b : Behavior Mpi Point) × (o ≡ some b) × (b.completed ≡ true) × HasKey p b

  Done-Completed : (o : Option (Behavior Mpi Point)) → SoundOpt p o → Done o → Completed o
  Done-Completed none h d = elim d [ ]
  Done-Completed (some b) (inl k) d = (b, refl, d, k)
  Done-Completed (some b) (inr n) d = absurd (cc (n.1, d))

  -- Whatever methods are called on a new object, in whatever order and with whatever packets, an
  -- exchange whose status is completed has a behavior that has completed, and the behavior's key and
  -- its length are those that `bd2_export_key` gave, in a buffer of 66 bytes, of a context for which
  -- `bd2_make_key` or `bd2_calc_key` had made a key.
  pub Reachable-Completed :
      (s : Bd2 Mpi Point Rng)
      → Reachable p id junk memory available s
      → s.status ≡ key_completed
      → Completed s.behavior
  Reachable-Completed s r e = let k = Reachable-IsKeyed s r in Done-Completed s.behavior k.0 (k.1 e)
