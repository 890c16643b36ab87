-- ===== src/KeyExchange/Mka/Bounds.antt =====
-- What the MKA exchange stores stays within its vectors, and its step is the round of the library.
use lib_smoke.Base.{
  ℕ, suc, ◌+◌, ◌-◌, ◌*◌, ◌≤◌, ◌<◌, ◌≡◌, refl, ◌∙◌, arith, List, [], ◌∷◌, Option, some, true, false,
  ltb, ◌==◌, if◌then◌else◌, length, take, copy_at, length-copy_at, All, Bool-cases, inl, inr,
}
use lib_smoke.NodeCounter.NodeSet.{
  insert, member, Increasing, member-insert, length-insert, insert-Increasing, insert-All,
  length-subset,
}
use lib_smoke.KeyExchange.Mka.{Mka, bufsize, store, add_key, add_deferred}

-- the users of whom a key is stored, within `nodes` and without `id`
pub record Users (id : ℕ) (nodes users : List ℕ) : Type 0 where
  pub up : Increasing users
  pub within : All (λ u. member u nodes ≡ true) users
  pub foreign : member id users ≡ false

-- a sender that is one of the nodes, and another one
abbrev pub Sender : ℕ → List ℕ → ℕ → Type 0
Sender id nodes src = (member src nodes ≡ true) × ((src == id) ≡ false)

module _ (id : ℕ) (nodes : List ℕ) (up : Increasing nodes) (own : member id nodes ≡ true) where
  -- There is room for one more user, as long as it is a new one.
  room :
      (users : List ℕ) (src : ℕ)
      → Users id nodes users
      → Sender id nodes src
      → member src users ≡ false
      → suc (length users) < length nodes
  unfolding member
  room users src u s new =
      let with_src = insert src users in
      let foreign : member id with_src ≡ false =
        member-insert id src users ∙ ground (arith, u.foreign, s.1) in
      let inside = insert-All (λ k. member k nodes ≡ true) src users s.0 u.within in
      let fits =
        length-subset (insert id with_src) nodes
          (insert-Increasing id with_src (insert-Increasing src users u.up)) up
          (insert-All (λ k. member k nodes ≡ true) id with_src own inside) in
      omega (arith, fits, length-insert id with_src foreign, length-insert src users new)

  add-Users :
      (users : List ℕ) (src : ℕ)
      → Users id nodes users
      → Sender id nodes src
      → Users id nodes (insert src users)
  add-Users users src u s = record {
    up = insert-Increasing src users u.up;
    within = insert-All (λ k. member k nodes ≡ true) src users s.0 u.within;
    foreign = member-insert id src users ∙ ground (arith, u.foreign, s.1);
  }

store-fits :
    (keys bytes : List ℕ) (pos n : ℕ)
    → length keys ≡ bufsize * n
    → pos < n
    → store keys pos bytes ≡ some (copy_at keys (pos * bufsize) (take bufsize bytes))
unfolding store
store-fits keys bytes pos n e h =
    let enough : ltb (length keys) (pos * bufsize + bufsize) ≡ false = ground (arith, e, h) in
    rw enough refl

-- What holds between the methods while an exchange runs. The round of the library is the step, and
-- stays at the last round once the last step is over.
pub record IsValid {Mpi Point Rng : Type 0} (id : ℕ) (s : Mka Mpi Point Rng) : Type 0 where
  pub enough : 2 ≤ length s.nodes
  pub most : length s.nodes ≤ 255
  pub up : Increasing s.nodes
  pub own : member id s.nodes ≡ true
  pub users : Users id s.nodes s.remote_users
  pub deferred : All (λ (d : ℕ × ℕ × List ℕ). Sender id s.nodes d.0) s.next_step
  pub space : length s.remote_keys ≡ bufsize * (length s.nodes - 1)
  pub step : s.current_step < length s.nodes
  pub parties : s.ctx.n ≡ length s.nodes
  pub round :
      s.ctx.r + 2
      ≡ (if ltb (s.current_step + 1) (length s.nodes) then s.current_step + 2 else length s.nodes)

module _ {Mpi Point Rng : Type 0} (id : ℕ) where
  -- `s` with other keys of other users
  abbrev pub stored : Mka Mpi Point Rng → List ℕ → List ℕ → Mka Mpi Point Rng
  stored s keys users = record s { remote_keys = keys; remote_users = users }

  abbrev pub Stores : Mka Mpi Point Rng → Option (Mka Mpi Point Rng) → Type 0
  Stores s r =
      (keys : List ℕ) × (users : List ℕ) × (r ≡ some (stored s keys users))
      × IsValid id (stored s keys users)

  pub add_key-IsValid :
      (s : Mka Mpi Point Rng) (src : ℕ) (bytes : List ℕ)
      → IsValid id s
      → Sender id s.nodes src
      → Stores s (add_key s src bytes)
  unfolding add_key
  add_key-IsValid s src bytes v sender = elim (Bool-cases (member src s.remote_users)) [
    | inl old ↦ (s.remote_keys, s.remote_users, rw old refl, v)
    | inr new ↦
        let keys = copy_at s.remote_keys (length s.remote_users * bufsize) (take bufsize bytes) in
        let free = room id s.nodes v.up v.own s.remote_users src v.users sender new in
        let fits =
          store-fits s.remote_keys bytes (length s.remote_users) (length s.nodes - 1) v.space
            (omega (arith, free)) in
        (
          keys,
          insert src s.remote_users,
          rw (new, fits) refl,
          record {
            enough = v.enough;
            most = v.most;
            up = v.up;
            own = v.own;
            users = add-Users id s.nodes v.up v.own s.remote_users src v.users sender;
            deferred = v.deferred;
            space = length-copy_at s.remote_keys _ _ ∙ v.space;
            step = v.step;
            parties = v.parties;
            round = v.round;
          },
        )
  ]

  -- the deferred steps that are left, all of them from nodes, are stored one after the other
  pub add_deferred-IsValid :
      (s : Mka Mpi Point Rng) (bytes : List ℕ) (rest : List (ℕ × ℕ × List ℕ))
      → IsValid id s
      → All (λ (d : ℕ × ℕ × List ℕ). Sender id s.nodes d.0) rest
      → (s' : Mka Mpi Point Rng) × (add_deferred s bytes rest ≡ some s') × IsValid id s'
  unfolding add_deferred
  add_deferred-IsValid s bytes [] v a = (
    record s { next_step = [] },
    refl,
    record {
      enough = v.enough;
      most = v.most;
      up = v.up;
      own = v.own;
      users = v.users;
      deferred = tt;
      space = v.space;
      step = v.step;
      parties = v.parties;
      round = v.round;
    },
  )
  add_deferred-IsValid s bytes (mks ∷ rest) v a = elim (Bool-cases (mks.1 == s.current_step)) [
    | inr other ↦ rw other (add_deferred-IsValid s bytes rest v a.1)
    | inl this ↦
        let (keys, users, e, v') = add_key-IsValid s mks.0 bytes v a.0 in
        rw (this, e) (add_deferred-IsValid (stored s keys users) bytes rest v' a.1)
  ]
