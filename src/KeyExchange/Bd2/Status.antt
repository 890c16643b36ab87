-- ===== src/KeyExchange/Bd2/Status.antt =====
-- The status of the BD2 exchange: when it is completed, and what a behavior that does not start leaves.
use lib_smoke.Base.{
  ℕ, ◌≡◌, ap, refl, sym, ◌∙◌, List, [], ◌∷◌, none, Bool, true, false, ◌||◌, ltb, ◌==◌,
  if◌then◌else◌, length, subst,
}
use lib_smoke.Telegram.{Telegram}
use lib_smoke.PktWrapper.{Pkt, PktWrapper}
use lib_smoke.Sban.{Polarssl}
use lib_smoke.KeyExchange.{KeyStatus, key_offline, key_running, is_offline}
use lib_smoke.KeyExchange.Policies.{get_node}
use lib_smoke.KeyExchange.Bd2Utils
use lib_smoke.KeyExchange.Bd2Utils.{World, Behavior, Role, chair_role, node_role, on_recv}
use lib_smoke.KeyExchange.Bd2.{Bd2, create, init_behavior, init, shutdown, deliver, update}

module _ {Mpi Point Rng : Type 0} (p : Polarssl Mpi Point Rng) (id : ℕ) (junk : ℕ → Telegram)
    (memory : List ℕ) (available : Bool) where
  -- The objects that the methods of the class make of a new one.
  pub data Reachable : Bd2 Mpi Point Rng → Type 0 where
    created : (rng : Rng) → Reachable (create rng)
    inits :
        (nodes : List ℕ) (s : Bd2 Mpi Point Rng) (w : PktWrapper)
        → Reachable s
        → Reachable (init p id junk memory available nodes s w).1
    updates :
        (s : Bd2 Mpi Point Rng) (w : PktWrapper)
        → Reachable s
        → Reachable (update p id junk memory available s w).1
    shuts_down :
        (s : Bd2 Mpi Point Rng) → Reachable s → Reachable (shutdown p id junk memory available s)

  deliver-none :
      (w : World Rng) (packets : List Pkt)
      → deliver p id junk memory available none w packets
        ≡ (true, none, record w { pkts = record w.pkts { in_queue = [] } })
  unfolding deliver
  deliver-none w [] = refl
  deliver-none w (packet ∷ packets) = deliver-none w packets

  abbrev stuck : List ℕ → Rng → Bd2 Mpi Point Rng
  stuck nodes rng = record { status = key_running; nodes = nodes; behavior = none; rng = rng }

  update-stuck :
      (nodes : List ℕ) (rng : Rng) (w : PktWrapper)
      → update p id junk memory available (stuck nodes rng) w
        ≡ (true, stuck nodes rng, record w { in_queue = [] })
  unfolding update
  update-stuck nodes rng w = rw (deliver-none (record { rng = rng; pkts = w }) w.in_queue) refl

  init_behavior-stuck :
      (r : Bool × Behavior Mpi Point × World Rng) (s s' : Bd2 Mpi Point Rng) (w : PktWrapper)
      → s.status ≡ key_running
      → init_behavior p id junk memory available r s ≡ (false, s', w)
      → stuck s.nodes r.2.rng ≡ s'
  init_behavior-stuck (true, b, v) s s' w h e = absurd (cc e)
  init_behavior-stuck (false, b, v) s s' w h e =
      ap (λ (k : KeyStatus). record { status = k; nodes = s.nodes; behavior = none; rng = v.rng })
        (sym h)
      ∙ ap (λ (x : Bool × Bd2 Mpi Point Rng × PktWrapper). x.1) e

  -- If `init` of an offline object returns false although the nodes are 2 to 255 and the random
  -- generator is there, then the status stays running without a behavior: every `update` from then on
  -- empties the queue of packets, returns true, and leaves the object as it is.
  pub init-update :
      (nodes : List ℕ) (s s' : Bd2 Mpi Point Rng) (w w1 w' : PktWrapper)
      → s.status ≡ key_offline
      → (ltb 255 (length nodes) || ltb (length nodes) 2) ≡ false
      → available ≡ true
      → init p id junk memory available nodes s w ≡ (false, s', w1)
      → (s'.status ≡ key_running)
        × (update p id junk memory available s' w' ≡ (true, s', record w' { in_queue = [] }))
  unfolding init
  init-update nodes s s' w w1 w' o size a e =
      let role =
        if id == get_node nodes then chair_role (length nodes) [] else node_role (get_node nodes) in
      let r =
        Bd2Utils.init p id junk memory role (Bd2Utils.create p id junk memory role)
          (record { rng = s.rng; pkts = w }) in
      let s1 : Bd2 Mpi Point Rng = record s { status = key_running; nodes = nodes } in
      let off : is_offline s.status ≡ true = ap is_offline o in
      let same : init p id junk memory available nodes s w
          ≡ init_behavior p id junk memory available r s1 =
        rw (off, size, a) refl in
      let left = init_behavior-stuck r s1 s' w1 refl (sym same ∙ e) in
      subst
        (λ (x : Bd2 Mpi Point Rng).
          (x.status ≡ key_running)
          × (update p id junk memory available x w' ≡ (true, x, record w' { in_queue = [] })))
        left (refl, update-stuck nodes r.2.rng w')
