-- ===== src/KeyExchange/Mka/Update.antt =====
-- The bounds of MKA, from `init` on.
use lib_smoke.Base.{
  ℕ, ◌+◌, ◌-◌, ◌*◌, ◌≤◌, ◌≡◌, refl, subst, ap, ◌∙◌, arith, List, [], ◌++◌, some, Bool, true, false,
  not, ◌||◌, ltb, ◌==◌, if◌then◌else◌, length, take, length-take, length-append, length-replicate,
  replicate, Bool-cases, inl, inr,
}
use lib_smoke.Telegram.{Telegram}
use lib_smoke.PktWrapper.{PktWrapper}
use lib_smoke.PktWrapper.Foreign.{AllForeign}
use lib_smoke.NodeCounter.NodeSet.{member, Increasing}
use lib_smoke.Sban.{Ret-cases, Polarssl, Arithmetic}
use lib_smoke.Sban.Mka as Library
use lib_smoke.Sban.Mka.{Context, set_part, compute_key}
use lib_smoke.Sban.Mka.Rounds.{set_part-rounds, compute_key-rounds}
use lib_smoke.KeyExchange.{is_running, is_offline, key_error, key_running}
use lib_smoke.KeyExchange.Bd2Utils.Sends.{check-good}
use lib_smoke.KeyExchange.Mka.{Mka, bufsize, Outcome, init_part, init, finish, update}
use lib_smoke.KeyExchange.Mka.Bounds.{IsValid}
use lib_smoke.KeyExchange.Mka.Steps.{
  with_status-IsValid, crypto_broadcast-IsValid, Good, receive_all-IsValid,
}

-- a refusal that was passed on the way to true
pub past_refusal :
    {B C : Type 0} (b : Bool) (bad : B × C) (r : Bool × B × C) (y : B × C)
    → (if b then (false, bad.0, bad.1) else r) ≡ (true, y.0, y.1)
    → (b ≡ false) × (r ≡ (true, y.0, y.1))
past_refusal {B} {C} true bad r y e = absurd (cc (ap (λ (x : Bool × B × C). x.0) e))
past_refusal false bad r y e = (refl, e)

-- `resize`
pub sized : (keys : List ℕ) (n : ℕ) → length (take n (keys ++ replicate n 0)) ≡ n
sized keys n = omega (
  arith,
  length-take n (keys ++ replicate n 0),
  length-append keys (replicate n 0),
  length-replicate {A = ℕ} n 0,
)

module _ {Mpi Point Rng : Type 0} (p : Polarssl Mpi Point Rng) (q : Arithmetic Mpi Point) (id : ℕ)
    (junk : ℕ → Telegram) (memory : List ℕ) (available : Bool) where
  finish-IsValid :
      (s : Mka Mpi Point Rng) (w : PktWrapper)
      → IsValid id s
      → IsValid id (finish p q id junk memory available s w).1
  unfolding finish
  finish-IsValid s w v = elim (Bool-cases (s.current_step == length s.nodes - 1)) [
    | inr more ↦ rw more v
    | inl last ↦ elim (Ret-cases (compute_key p q (some s.ctx) bufsize s.rng)) [
      | inr f ↦ rw (last, f.1) (with_status-IsValid p q id junk memory available s v)
      | inl r ↦
          let (parties, round) =
            compute_key-rounds p q s.ctx r.0.0 bufsize r.0.1 r.0.2 s.rng r.0.3 r.1 in
          rw (last, r.1)
            (record {
              enough = v.enough;
              most = v.most;
              up = v.up;
              own = v.own;
              users = v.users;
              deferred = v.deferred;
              space = v.space;
              step = v.step;
              parties = parties ∙ v.parties;
              round = ap (λ r. r + 2) round ∙ v.round;
            })
    ]
  ]

  -- An `update` of a valid exchange, with packets of which none is the node's own, has a result: no
  -- key is written past the end of `_remote_keys`. The exchange stays valid: there are keys of
  -- different nodes, all of them others, in a vector with room for one key of each other node, the step
  -- is at most the number of nodes less one, and the round of the library goes with it.
  pub update-Good :
      (s : Mka Mpi Point Rng) (w : PktWrapper)
      → IsValid id s
      → AllForeign id w.in_queue
      → Good p q id junk memory available (update p q id junk memory available s w)
  unfolding update
  update-Good s w v a = elim (Bool-cases (is_running s.status)) [
    | inr n ↦ rw n ((false, s, w), refl, v)
    | inl y ↦
        let (r, e, v') = receive_all-IsValid p q id junk memory available s w w.in_queue v a in
        elim (Bool-cases r.0) [
          | inl good ↦
              rw (y, e, good)
                (finish p q id junk memory available r.1 r.2, refl, finish-IsValid r.1 r.2 v')
          | inr bad ↦ rw (y, e, bad) (r, refl, v')
        ]
  ]

  fresh-IsValid :
      (s : Mka Mpi Point Rng)
      → s.next_step ≡ []
      → 2 ≤ length s.nodes
      → length s.nodes ≤ 255
      → Increasing s.nodes
      → member id s.nodes ≡ true
      → s.ctx.n ≡ length s.nodes
      → s.ctx.r ≡ 0
      → IsValid id (record s {
        remote_keys =
            take
              (bufsize * (length s.nodes - 1))
              (s.remote_keys ++ replicate (bufsize * (length s.nodes - 1)) 0);
        remote_users = [];
        current_step = 0;
      })
  unfolding member
  fresh-IsValid s none_left enough most up own parties round = record {
    enough = enough;
    most = most;
    up = up;
    own = own;
    users = record { up = tt; within = tt; foreign = refl };
    deferred = rw none_left tt;
    space = sized s.remote_keys (bufsize * (length s.nodes - 1));
    step = omega (arith, enough);
    parties = parties;
    round = ground (arith, enough, round);
  }

  -- If `init` of an exchange without deferred steps returns true for a set of nodes with the node's own
  -- among them, then the exchange is valid.
  pub init-IsValid :
      (nodes : List ℕ) (s s' : Mka Mpi Point Rng) (w w' : PktWrapper)
      → s.next_step ≡ []
      → Increasing nodes
      → member id nodes ≡ true
      → init p q id junk memory available nodes s w ≡ (true, s', w')
      → IsValid id s'
  unfolding init init_part
  init-IsValid nodes s s' w w' none_left up own e =
      let s1 : Mka Mpi Point Rng = record s { status = key_running; nodes = nodes } in
      let (offline, e1) = past_refusal (not (is_offline s.status)) (s, w) _ (s', w') e in
      let (sizes, e2) =
        past_refusal (ltb 255 (length nodes) || ltb (length nodes) 2) (s, w) _ (s', w') e1 in
      let failed : Mka Mpi Point Rng × PktWrapper = (record s1 { status = key_error }, w) in
      let (random, e3) = past_refusal (not available) failed _ (s', w') e2 in
      let (c, i, e4) = check-good (Library.init p q (some s.ctx) 3) failed _ (s', w') e3 in
      let (r, part, e5) =
        check-good (set_part p q (some c) (length nodes) s.rng) failed _ (s', w') e4 in
      let (parties, round) = set_part-rounds p q c r.0 (length nodes) s.rng r.1 part in
      let s2 : Mka Mpi Point Rng = record s1 { ctx = r.0; rng = r.1 } in
      let fresh =
        fresh-IsValid s2 none_left (ground (arith, sizes)) (ground (arith, sizes)) up own parties
          round in
      subst (λ (x : Outcome p q id junk memory available). IsValid id x.1) e5
        (crypto_broadcast-IsValid p q id junk memory available _ w fresh)
