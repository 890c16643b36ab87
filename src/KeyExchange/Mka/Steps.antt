-- ===== src/KeyExchange/Mka/Steps.antt =====
-- The bounds of MKA, through a step and an update.
use lib_smoke.Base.{
  ℕ, suc, ◌+◌, ◌-◌, ◌%◌, ◌≤◌, ◌<◌, ◌≡◌, refl, ap, ◌∙◌, arith, List, [], ◌∷◌, ◌++◌, Option, some,
  Bool, true, false, not, ◌||◌, ltb, ◌==◌, if◌then◌else◌, length, drop, nth, All, Bool-cases, inl,
  inr,
}
use lib_smoke.Telegram.{Telegram}
use lib_smoke.PktWrapper.{Pkt, PktWrapper}
use lib_smoke.PktWrapper.Foreign.{AllForeign}
use lib_smoke.NodeCounter.NodeSet.{member}
use lib_smoke.Sban.{Ret-cases, Polarssl, Arithmetic}
use lib_smoke.Sban.Mka.{Context, make_broadval, acc_broadval}
use lib_smoke.Sban.Mka.Rounds.{make_broadval-rounds, acc_broadval-rounds}
use lib_smoke.KeyExchange.{key_error}
use lib_smoke.KeyExchange.Mka.{
  Mka, bufsize, mka_packet, receive_key, Outcome, crypto_broadcast, after_broadcast, finish_step,
  crypto_update, receive_all,
}
use lib_smoke.KeyExchange.Mka.Bounds.{
  Sender, IsValid, stored, add_key-IsValid, add_deferred-IsValid,
}

All-snoc :
    {A : Type 0} (P : A → Type 0) (xs : List A) (a : A) → All P xs → P a → All P (xs ++ (a ∷ []))
All-snoc P [] a h x = (x, tt)
All-snoc P (y ∷ xs) a h x = (h.0, All-snoc P xs a h.1 x)

next_round :
    (step r r' n m : ℕ)
    → suc step < n
    → n ≤ 255
    → m ≡ n
    → r + 2 ≡ (if ltb (step + 1) n then step + 2 else n)
    → r' ≡ (if ltb (r + 2) m then r + 1 else r)
    → r' + 2 ≡ (if ltb ((step + 1) % 256 + 1) n then (step + 1) % 256 + 2 else n)
next_round step r r' n m b most same e e' =
    let small : (step + 1) % 256 ≡ step + 1 = omega (arith, b, most) in
    rw small (ground (arith, b, same, e, e'))

module _ {Mpi Point Rng : Type 0} (p : Polarssl Mpi Point Rng) (q : Arithmetic Mpi Point) (id : ℕ)
    (junk : ℕ → Telegram) (memory : List ℕ) (available : Bool) where
  -- there is a step to go
  abbrev Before : Mka Mpi Point Rng → Type 0
  Before s = suc s.current_step < length s.nodes

  receive_key-IsValid :
      (s : Mka Mpi Point Rng) (packet : Pkt)
      → IsValid id s
      → Sender id s.nodes packet.src
      → Before s
      → (s' : Mka Mpi Point Rng) × (receive_key s packet ≡ some s') × IsValid id s' × Before s'
  unfolding receive_key
  receive_key-IsValid s packet v sender b =
      let step_id = nth packet.payload 0 in
      let bytes = drop 1 packet.payload in
      elim (Bool-cases (step_id == s.current_step)) [
        | inl this ↦
            let (keys, users, e, v') = add_key-IsValid id s packet.src bytes v sender in
            (stored id s keys users, rw (this, e) refl, v', b)
        | inr other ↦ elim (Bool-cases (step_id == s.current_step + 1)) [
          | inl next ↦ (
            record s { next_step = s.next_step ++ ((packet.src, step_id, bytes) ∷ []) },
            rw (other, next) refl,
            record {
              enough = v.enough;
              most = v.most;
              up = v.up;
              own = v.own;
              users = v.users;
              deferred =
                  All-snoc (λ (d : ℕ × ℕ × List ℕ). Sender id s.nodes d.0) s.next_step
                    (packet.src, step_id, bytes) v.deferred sender;
              space = v.space;
              step = v.step;
              parties = v.parties;
              round = v.round;
            },
            b,
          )
          | inr none_of ↦ (s, rw (other, none_of) refl, v, b)
        ]
      ]

  -- `s` with another context at the same round
  with_ctx-IsValid :
      (s : Mka Mpi Point Rng) (c : Context Mpi Point) (rng : Rng)
      → IsValid id s
      → (c.n ≡ s.ctx.n) × (c.r ≡ s.ctx.r)
      → IsValid id (record s { ctx = c; rng = rng })
  with_ctx-IsValid s c rng v e = record {
    enough = v.enough;
    most = v.most;
    up = v.up;
    own = v.own;
    users = v.users;
    deferred = v.deferred;
    space = v.space;
    step = v.step;
    parties = e.0 ∙ v.parties;
    round = ap (λ r. r + 2) e.1 ∙ v.round;
  }

  pub with_status-IsValid :
      (s : Mka Mpi Point Rng) → IsValid id s → IsValid id (record s { status = key_error })
  with_status-IsValid s v = record {
    enough = v.enough;
    most = v.most;
    up = v.up;
    own = v.own;
    users = v.users;
    deferred = v.deferred;
    space = v.space;
    step = v.step;
    parties = v.parties;
    round = v.round;
  }

  pub crypto_broadcast-IsValid :
      (s : Mka Mpi Point Rng) (w : PktWrapper)
      → IsValid id s
      → IsValid id (crypto_broadcast p q id junk memory available s w).1
  unfolding crypto_broadcast
  crypto_broadcast-IsValid s w v = elim (Ret-cases (make_broadval p q (some s.ctx) bufsize s.rng)) [
    | inr f ↦ rw f.1 (with_status-IsValid s v)
    | inl r ↦ rw r.1 (
        with_ctx-IsValid s r.0.0 r.0.2 v
          (make_broadval-rounds p q s.ctx r.0.0 bufsize r.0.1 s.rng r.0.2 r.1))
  ]

  -- a result, and it is valid
  abbrev pub Good : Option (Outcome p q id junk memory available) → Type 0
  Good o = (r : Outcome p q id junk memory available) × (o ≡ some r) × IsValid id r.1

  after_broadcast-IsValid :
      (o : Outcome p q id junk memory available) (bytes : List ℕ)
      → IsValid id o.1
      → Good (after_broadcast p q id junk memory available o bytes)
  unfolding after_broadcast
  after_broadcast-IsValid (false, s, w) bytes v = ((false, s, w), refl, v)
  after_broadcast-IsValid (true, s, w) bytes v =
      let (s', e, v') = add_deferred-IsValid id s bytes s.next_step v v.deferred in
      ((true, s', w), rw e refl, v')

  next_step-IsValid :
      (s : Mka Mpi Point Rng) (c : Context Mpi Point) (rng : Rng)
      → IsValid id s
      → Before s
      → (c.n ≡ s.ctx.n) × (c.r ≡ (if ltb (s.ctx.r + 2) s.ctx.n then s.ctx.r + 1 else s.ctx.r))
      → IsValid id (record s {
        ctx = c;
        rng = rng;
        remote_users = [];
        current_step = (s.current_step + 1) % 256;
      })
  unfolding member
  next_step-IsValid s c rng v b e = record {
    enough = v.enough;
    most = v.most;
    up = v.up;
    own = v.own;
    users = record { up = tt; within = tt; foreign = refl };
    deferred = v.deferred;
    space = v.space;
    step = omega (arith, v.most, b);
    parties = e.0 ∙ v.parties;
    round =
        next_round s.current_step s.ctx.r c.r (length s.nodes) s.ctx.n b v.most v.parties v.round
          e.1;
  }

  finish_step-IsValid :
      (s : Mka Mpi Point Rng) (w : PktWrapper) (bytes : List ℕ)
      → IsValid id s
      → Before s
      → Good (finish_step p q id junk memory available s w bytes)
  unfolding finish_step
  finish_step-IsValid s w bytes v b =
      elim (Ret-cases (acc_broadval p q (some s.ctx) s.remote_keys (length s.remote_keys) s.rng)) [
        | inr f ↦
            rw f.1 ((false, record s { status = key_error }, w), refl, with_status-IsValid s v)
        | inl r ↦
            let v' = next_step-IsValid s r.0.0 r.0.1 v b (
              acc_broadval-rounds p q s.ctx r.0.0 s.remote_keys (length s.remote_keys) s.rng r.0.1
                r.1) in
            let s' : Mka Mpi Point Rng = record s {
              ctx = r.0.0;
              rng = r.0.1;
              remote_users = [];
              current_step = (s.current_step + 1) % 256;
            } in
            elim (Bool-cases ((s.current_step + 1) % 256 == length s.nodes - 1)) [
              | inl last ↦ rw (r.1, last) ((true, s', w), refl, v')
              | inr more ↦
                  rw (r.1, more)
                    (after_broadcast-IsValid (crypto_broadcast p q id junk memory available s' w)
                      bytes (crypto_broadcast-IsValid s' w v'))
            ]
      ]

  crypto_update-IsValid :
      (s : Mka Mpi Point Rng) (w : PktWrapper) (packet : Pkt)
      → IsValid id s
      → Sender id s.nodes packet.src
      → Before s
      → Good (crypto_update p q id junk memory available s w packet)
  unfolding crypto_update
  crypto_update-IsValid s w packet v sender b =
      elim (Bool-cases (length packet.payload == suc bufsize)) [
        | inr short ↦ rw short ((true, s, w), refl, v)
        | inl full ↦
            let (s', e, v', b') = receive_key-IsValid s packet v sender b in
            elim (Bool-cases (length s'.remote_users == length s'.nodes - 1)) [
              | inl all_in ↦
                  rw (full, e, all_in) (finish_step-IsValid s' w (drop 1 packet.payload) v' b')
              | inr more ↦ rw (full, e, more) ((true, s', w), refl, v')
            ]
      ]

  pub receive_all-IsValid :
      (s : Mka Mpi Point Rng) (w : PktWrapper) (packets : List Pkt)
      → IsValid id s
      → AllForeign id packets
      → Good (receive_all p q id junk memory available s w packets)
  unfolding receive_all
  receive_all-IsValid s w [] v a = ((true, s, record w { in_queue = [] }), refl, v)
  receive_all-IsValid s w (packet ∷ packets) v a =
      elim (Bool-cases (ltb s.current_step (length s.nodes - 1))) [
        | inr done ↦ rw done ((true, s, record w { in_queue = packet ∷ packets }), refl, v)
        | inl b ↦
            elim (Bool-cases (not (packet.cmd == mka_packet) || not (member packet.src s.nodes))) [
              | inl skipped ↦ rw (b, skipped) (receive_all-IsValid s w packets v a.1)
              | inr taken ↦
                  let known : member packet.src s.nodes ≡ true = ground (arith, taken) in
                  let (r, e, v') =
                    crypto_update-IsValid s w packet v (known, a.0) (ground (arith, b)) in
                  elim (Bool-cases r.0) [
                    | inl good ↦ rw (b, taken, e, good) (receive_all-IsValid r.1 r.2 packets v' a.1)
                    | inr bad ↦
                        rw (b, taken, e, bad)
                          ((false, r.1, record r.2 { in_queue = packets }), refl, v')
                  ]
            ]
      ]
