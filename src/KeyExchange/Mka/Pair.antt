-- ===== src/KeyExchange/Mka/Pair.antt =====
-- MKA between two nodes: an exchange that has begun, and the packet of the other one.
use lib_smoke.Base.{
  ℕ, suc, ◌+◌, ◌*◌, ◌≡◌, refl, ap, sym, ◌∙◌, arith, List, [], ◌∷◌, ◌++◌, Option, none, some, Bool,
  true, false, ltb, ◌==◌, length, take, take-all, drop, copy_at, inl, inr,
}
use lib_smoke.Telegram.{Telegram}
use lib_smoke.PktWrapper.{Pkt, PktWrapper}
use lib_smoke.NodeCounter.NodeSet.{member, insert}
use lib_smoke.KeyExchange.Bd2Utils.Sends.{check-good}
use lib_smoke.Sban.{Code, Ret-cases, ok, fail, Polarssl, Arithmetic}
use lib_smoke.Sban.Mka.{Context, acc_broadval, compute_key}
use lib_smoke.KeyExchange.{key_running, key_completed, key_error}
use lib_smoke.KeyExchange.Mka.{
  Mka, bufsize, mka_packet, store, add_key, receive_key, finish_step, crypto_update, receive_all,
  finish, update,
}

copy_at-whole : (xs ys : List ℕ) → length xs ≡ length ys → copy_at xs 0 ys ≡ ys
copy_at-whole [] [] e = refl
copy_at-whole [] (y ∷ ys) e = absurd (omega (arith, e))
copy_at-whole (x ∷ xs) [] e = absurd (omega (arith, e))
copy_at-whole (x ∷ xs) (y ∷ ys) e = ap (λ zs. y ∷ zs) (copy_at-whole xs ys (omega (arith, e)))

abbrev value_or : {A : Type 0} → A → Option A → A
value_or a none = a
value_or a (some b) = b

module _ {Mpi Point Rng : Type 0} where
  -- an exchange of the nodes `a` and `b` that has sent its value
  abbrev pub begun : ℕ → ℕ → List ℕ → ℕ → List ℕ → Context Mpi Point → Rng → Mka Mpi Point Rng
  begun a b key keylen keys ctx rng = record {
    status = key_running;
    nodes = a ∷ b ∷ [];
    current_step = 0;
    key = key;
    keylen = keylen;
    next_step = [];
    remote_keys = keys;
    remote_users = [];
    ctx = ctx;
    rng = rng;
  }

  -- and that has the other's value
  abbrev complete : ℕ → ℕ → List ℕ → ℕ → ℕ → List ℕ → Context Mpi Point → Rng → Mka Mpi Point Rng
  complete a b key keylen src keys ctx rng = record (begun a b key keylen keys ctx rng) {
    remote_users = src ∷ [];
  }

module _ {Mpi Point Rng : Type 0} (p : Polarssl Mpi Point Rng) (q : Arithmetic Mpi Point) (id : ℕ)
    (junk : ℕ → Telegram) (memory : List ℕ) (available : Bool) where
  module _ (a b keylen src dest : ℕ) (key keys bytes : List ℕ) (ctx : Context Mpi Point) (rng : Rng)
      (known : member src (a ∷ b ∷ []) ≡ true) (room : length keys ≡ bufsize)
      (full : length bytes ≡ bufsize) where
    abbrev packet : Pkt
    packet = record { cmd = mka_packet; src = src; dest = dest; payload = 0 ∷ bytes }

    receive_key-complete :
        receive_key (begun a b key keylen keys ctx rng) packet
        ≡ some (complete a b key keylen src bytes ctx rng)
    unfolding receive_key add_key store member insert
    receive_key-complete =
        let fits : ltb (length keys) (0 * bufsize + bufsize) ≡ false = ground (arith, room) in
        let whole : copy_at keys 0 (take bufsize bytes) ≡ bytes =
          ap (copy_at keys 0) (take-all bufsize bytes (omega (arith, full)))
          ∙ copy_at-whole keys bytes (room ∙ sym full) in
        rw (fits, whole) refl

    crypto_update-finishes :
        (w : PktWrapper)
        → crypto_update p q id junk memory available (begun a b key keylen keys ctx rng) w packet
          ≡ finish_step p q id junk memory available
              (complete a b key keylen src bytes ctx rng)
              w
              bytes
    unfolding crypto_update
    crypto_update-finishes w =
        let size : (length (0 ∷ bytes) == suc bufsize) ≡ true = ground (arith, full) in
        rw (size, receive_key-complete) refl

    -- what an update that returns true has called, and what it leaves
    abbrev pub Finished : Mka Mpi Point Rng → Type 0
    Finished s =
        (c3 : Context Mpi Point) × (r3 : Rng) × (c4 : Context Mpi Point) × (r4 : Rng)
        × (shared : List ℕ) × (acc_broadval p q (some ctx) bytes bufsize rng ≡ ok (c3, r3))
        × (compute_key p q (some c3) bufsize r3 ≡ ok (c4, s.keylen, shared, r4))
        × (s.key ≡ shared ++ drop (length shared) key)
        × (s.status ≡ key_completed)

    finish_step-last :
        (w : PktWrapper) (c3 : Context Mpi Point) (r3 : Rng)
        → acc_broadval p q (some ctx) bytes bufsize rng ≡ ok (c3, r3)
        → finish_step p q id junk memory available
            (complete a b key keylen src bytes ctx rng)
            w
            bytes
          ≡ some (true, record (begun a b key keylen bytes c3 r3) { current_step = 1 }, w)
    unfolding finish_step
    finish_step-last w c3 r3 e = rw (full, e) refl

    finish_step-fails :
        (w : PktWrapper) (c : Code)
        → acc_broadval p q (some ctx) bytes bufsize rng ≡ fail c
        → finish_step p q id junk memory available
            (complete a b key keylen src bytes ctx rng)
            w
            bytes
          ≡ some
              (false, record (complete a b key keylen src bytes ctx rng) { status = key_error }, w)
    unfolding finish_step
    finish_step-fails w c e = rw (full, e) refl

    abbrev queued : PktWrapper → PktWrapper
    queued v = record v { in_queue = packet ∷ [] }

    -- whether an update has returned true
    abbrev good_of : Option (Bool × Mka Mpi Point Rng × PktWrapper) → Bool
    good_of none = false
    good_of (some r) = r.0

    update-last :
        (v : PktWrapper) (c3 : Context Mpi Point) (r3 : Rng)
        → acc_broadval p q (some ctx) bytes bufsize rng ≡ ok (c3, r3)
        → update p q id junk memory available (begun a b key keylen keys ctx rng) (queued v)
          ≡ some (
              finish p q id junk memory available
                (record (begun a b key keylen bytes c3 r3) { current_step = 1 })
                (record v { in_queue = [] }))
    unfolding update receive_all
    update-last v c3 r3 e =
        rw (known, crypto_update-finishes (queued v), finish_step-last (queued v) c3 r3 e) refl

    update-fails :
        (v : PktWrapper) (c : Code)
        → acc_broadval p q (some ctx) bytes bufsize rng ≡ fail c
        → good_of
            (update p q id junk memory available (begun a b key keylen keys ctx rng) (queued v))
          ≡ false
    unfolding update receive_all
    update-fails v c e =
        rw (known, crypto_update-finishes (queued v), finish_step-fails (queued v) c e) refl

    finish-Finished :
        (w v' : PktWrapper) (s : Mka Mpi Point Rng) (c3 : Context Mpi Point) (r3 : Rng)
        → acc_broadval p q (some ctx) bytes bufsize rng ≡ ok (c3, r3)
        → finish p q id junk memory available
            (record (begun a b key keylen bytes c3 r3) { current_step = 1 })
            w
          ≡ (true, s, v')
        → Finished s
    unfolding finish
    finish-Finished w v' s c3 r3 acc e =
        let failed : Mka Mpi Point Rng × PktWrapper =
          (record (begun a b key keylen bytes c3 r3) { current_step = 1; status = key_error }, w) in
        let (r, e1, e2) = check-good (compute_key p q (some c3) bufsize r3) failed _ (s, v') e in
        let same = ap (λ (x : Bool × Mka Mpi Point Rng × PktWrapper). x.1) e2 in
        let len : r.1 ≡ s.keylen = ap (λ (x : Mka Mpi Point Rng). x.keylen) same in
        (
          c3,
          r3,
          r.0,
          r.3,
          r.2,
          acc,
          e1 ∙ ap (λ (n : ℕ). ok (r.0, n, r.2, r.3)) len,
          sym (ap (λ (x : Mka Mpi Point Rng). x.key) same),
          sym (ap (λ (x : Mka Mpi Point Rng). x.status) same),
        )

    pub update-Finished :
        (v v' : PktWrapper) (s : Mka Mpi Point Rng)
        → update p q id junk memory available (begun a b key keylen keys ctx rng) (queued v)
          ≡ some (true, s, v')
        → Finished s
    update-Finished v v' s e = elim (Ret-cases (acc_broadval p q (some ctx) bytes bufsize rng)) [
      | inr f ↦ absurd (cc (sym (update-fails v f.0 f.1) ∙ ap good_of e))
      | inl r ↦
          let last = sym (update-last v r.0.0 r.0.1 r.1) ∙ e in
          finish-Finished (record v { in_queue = [] }) v' s r.0.0 r.0.1 r.1
            (ap (λ (x : Option (Bool × Mka Mpi Point Rng × PktWrapper)). value_or (true, s, v') x)
              last)
    ]
