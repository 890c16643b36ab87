-- ===== src/Sknx/Keyed.antt =====
-- A key is handed out only when the key exchange has completed.
use lib_smoke.Base.{ℕ, ap, subst, ◌≡◌, refl, some, Bool, true, false, inl, inr, Bool-cases}
use lib_smoke.Telegram.{Telegram}
use lib_smoke.Backend.{Backend}
use lib_smoke.PktWrapper.Update
use lib_smoke.NodeCounter.{
  NodeCounter, CounterStatus, counter_offline, counter_counting, counter_completed,
}
use lib_smoke.KeyExchange.{
  KeyExchange, KeyStatus, key_offline, key_error, key_running, key_completed,
}
use lib_smoke.Sknx.{
  Status, offline, counting, handshaking, finalizing, online, Sknx, create, init, init_at,
  init_counted, update_counter, update_handshaking, switch, update, get_key, get_key_at,
}
use lib_smoke.Sknx.Machine.{switch_after-some}

module _ {B C K : Type 0} (be : Backend B) (co : NodeCounter C) (ke : KeyExchange K) where
  -- from finalizing on, the key exchange has completed
  abbrev pub Keyed : Status → K → Type 0
  Keyed finalizing k = ke.status k ≡ key_completed
  Keyed online k = ke.status k ≡ key_completed
  Keyed _ k = Unit

  abbrev pub IsKeyed : Sknx B C K → Type 0
  IsKeyed s = Keyed s.status s.key

  -- What `init` and `update` can make of a new object.
  pub data Reachable : Sknx B C K → Type 0 where
    created : (b : B) (c : C) (k : K) (n : ℕ) → Reachable (create b c k n)
    inits : (s : Sknx B C K) → Reachable s → Reachable (init be co ke s).1
    updates :
        (fuel id : ℕ) (junk : Telegram) (s s' : Sknx B C K) (done : Bool)
        → Reachable s
        → update be co ke fuel id junk s ≡ some (done, s')
        → Reachable s'

  update_counter-IsKeyed :
      (c : CounterStatus) (s : Sknx B C K)
      → s.status ≡ counting
      → IsKeyed (update_counter be co ke c s).1
  unfolding update_counter
  update_counter-IsKeyed counter_offline s e = tt
  update_counter-IsKeyed counter_counting s e =
      elim (Bool-cases (co.update s.counter s.pktwrapper).0) [
        | inl y ↦ rw (y, e) tt
        | inr n ↦ rw n tt
      ]
  update_counter-IsKeyed counter_completed s e =
      let c = co.shutdown s.counter in
      elim (Bool-cases (ke.init (co.nodes c) s.key s.pktwrapper).0) [
        | inl y ↦ rw y tt
        | inr n ↦ rw n tt
      ]

  update_handshaking-IsKeyed :
      (k : KeyStatus) (s : Sknx B C K)
      → s.status ≡ handshaking
      → ke.status s.key ≡ k
      → IsKeyed (update_handshaking be co ke k s).1
  unfolding update_handshaking
  update_handshaking-IsKeyed key_offline s e h = tt
  update_handshaking-IsKeyed key_error s e h = tt
  update_handshaking-IsKeyed key_running s e h =
      elim (Bool-cases (ke.update s.key s.pktwrapper).0) [ inl y ↦ rw (y, e) tt | inr n ↦ rw n tt ]
  update_handshaking-IsKeyed key_completed s e h = h

  switch-IsKeyed :
      (a : Status) (s : Sknx B C K) → s.status ≡ a → Keyed a s.key → IsKeyed (switch be co ke a s).1
  unfolding switch
  switch-IsKeyed offline s e h = rw e tt
  switch-IsKeyed counting s e h = update_counter-IsKeyed (co.status s.counter) s e
  switch-IsKeyed handshaking s e h = update_handshaking-IsKeyed (ke.status s.key) s e refl
  switch-IsKeyed finalizing s e h = elim (Bool-cases (be.must_update s.backend)) [
    | inl y ↦ rw (y, e) h
    | inr n ↦ rw n h
  ]
  switch-IsKeyed online s e h = rw e h

  init_counted-IsKeyed :
      (x : Bool × C) (s : Sknx B C K) → s.status ≡ offline → IsKeyed (init_counted be co ke x s).1
  init_counted-IsKeyed (false, c) s e = rw e tt
  init_counted-IsKeyed (true, c) s e = tt

  init_at-IsKeyed :
      (a : Status) (s : Sknx B C K) → s.status ≡ a → IsKeyed s → IsKeyed (init_at be co ke a s).1
  unfolding init_at
  init_at-IsKeyed offline s e h = init_counted-IsKeyed (co.init s.counter) s e
  init_at-IsKeyed counting s e h = h
  init_at-IsKeyed handshaking s e h = h
  init_at-IsKeyed finalizing s e h = h
  init_at-IsKeyed online s e h = h

  Reachable-IsKeyed : (s : Sknx B C K) → Reachable s → IsKeyed s
  unfolding init update
  Reachable-IsKeyed _ (created b c k n) = tt
  Reachable-IsKeyed _ (inits s r) = init_at-IsKeyed s.status s refl (Reachable-IsKeyed s r)
  Reachable-IsKeyed _ (updates fuel id junk s s' done r e) =
      let (b, w, p) =
        switch_after-some be co ke s s' done (Update.update be fuel id junk s.backend s.pktwrapper)
          e in
      subst IsKeyed (ap (λ (x : Bool × Sknx B C K). x.1) p) (
        switch-IsKeyed s.status (record s { backend = b; pktwrapper = w }) refl
          (Reachable-IsKeyed s r))

  -- In every state that `init` and `update` can reach, whatever the bus delivers and whatever the
  -- counter and the key exchange do, `getKey` gives a key only if the key exchange has completed.
  pub get_key-completed :
      (s : Sknx B C K) (k : K) → Reachable s → get_key s ≡ some k → ke.status k ≡ key_completed
  unfolding get_key
  get_key-completed s k r e = by_status s.status (Reachable-IsKeyed s r) e
    where
      by_status :
          (a : Status) → Keyed a s.key → get_key_at a s.key ≡ some k → ke.status k ≡ key_completed
      by_status offline h g = absurd (cc g)
      by_status counting h g = absurd (cc g)
      by_status handshaking h g = absurd (cc g)
      by_status finalizing h g = absurd (cc g)
      by_status online h g = cc (h, g)
