-- ===== src/Sknx/Machine.antt =====
-- How the status of SKNX moves.
use lib_smoke.Base.{
  ℕ, ap, subst, ◌≡◌, refl, Option, none, some, Bool, true, false, not, inl, inr, Bool-cases,
}
use lib_smoke.Telegram.{Telegram}
use lib_smoke.Backend.{Backend}
use lib_smoke.PktWrapper.{PktWrapper}
use lib_smoke.PktWrapper.Update
use lib_smoke.NodeCounter.{
  NodeCounter, CounterStatus, counter_offline, counter_counting, counter_completed,
}
use lib_smoke.KeyExchange.{
  KeyExchange, KeyStatus, key_offline, key_error, key_running, key_completed,
}
use lib_smoke.Sknx.{
  Status, offline, counting, handshaking, finalizing, online, Sknx, update_counter,
  update_handshaking, switch, switch_after, update,
}

-- The moves that one `update` can make.
pub data Move : Status → Status → Type 0 where
  stays : {a : Status} → Move a a
  counted : Move counting handshaking
  count_failed : Move counting offline
  agreed : Move handshaking finalizing
  agreement_failed : Move handshaking offline
  finalized : Move finalizing online

abbrev pub is_offline : Status → Bool
is_offline offline = true
is_offline _ = false

module _ {B C K : Type 0} (be : Backend B) (co : NodeCounter C) (ke : KeyExchange K) where
  update_counter-Move :
      (c : CounterStatus) (s : Sknx B C K)
      → s.status ≡ counting
      → Move counting (update_counter be co ke c s).1.status
  unfolding update_counter
  update_counter-Move counter_offline s e = count_failed
  update_counter-Move counter_counting s e =
      elim (Bool-cases (co.update s.counter s.pktwrapper).0) [
        | inl y ↦ rw (y, e) stays
        | inr n ↦ rw n count_failed
      ]
  update_counter-Move counter_completed s e =
      let c = co.shutdown s.counter in
      elim (Bool-cases (ke.init (co.nodes c) s.key s.pktwrapper).0) [
        | inl y ↦ rw y counted
        | inr n ↦ rw n count_failed
      ]

  update_handshaking-Move :
      (k : KeyStatus) (s : Sknx B C K)
      → s.status ≡ handshaking
      → Move handshaking (update_handshaking be co ke k s).1.status
  unfolding update_handshaking
  update_handshaking-Move key_offline s e = agreement_failed
  update_handshaking-Move key_error s e = agreement_failed
  update_handshaking-Move key_running s e = elim (Bool-cases (ke.update s.key s.pktwrapper).0) [
    | inl y ↦ rw (y, e) stays
    | inr n ↦ rw n agreement_failed
  ]
  update_handshaking-Move key_completed s e = agreed

  switch-Move : (a : Status) (s : Sknx B C K) → s.status ≡ a → Move a (switch be co ke a s).1.status
  unfolding switch
  switch-Move offline s e = rw e stays
  switch-Move counting s e = update_counter-Move (co.status s.counter) s e
  switch-Move handshaking s e = update_handshaking-Move (ke.status s.key) s e
  switch-Move finalizing s e = elim (Bool-cases (be.must_update s.backend)) [
    | inl y ↦ rw (y, e) stays
    | inr n ↦ rw n finalized
  ]
  switch-Move online s e = rw e stays

  -- `switch_after` gives the result of a switch
  pub switch_after-some :
      (s s' : Sknx B C K) (done : Bool) (o : Option (B × PktWrapper))
      → switch_after be co ke s o ≡ some (done, s')
      → (b : B) × (w : PktWrapper) × (switch be co ke s.status
            (record s { backend = b; pktwrapper = w })
          ≡ (done, s'))
  unfolding switch_after
  switch_after-some s s' done none e = absurd (cc e)
  switch_after-some s s' done (some (b, w)) e = (b, w, cc e)

  -- Whenever `update` comes back, the status has stayed or made one move of the machine: counting to
  -- handshaking to finalizing to online, or from counting or handshaking back to offline.
  pub update-Move :
      (fuel id : ℕ) (junk : Telegram) (s s' : Sknx B C K) (done : Bool)
      → update be co ke fuel id junk s ≡ some (done, s')
      → Move s.status s'.status
  unfolding update
  update-Move fuel id junk s s' done e =
      let (b, w, p) =
        switch_after-some s s' done (Update.update be fuel id junk s.backend s.pktwrapper) e in
      subst (Move s.status) (ap (λ (x : Bool × Sknx B C K). x.1.status) p)
        (switch-Move s.status (record s { backend = b; pktwrapper = w }) refl)

  reports_offline :
      (c : CounterStatus) (s : Sknx B C K)
      → s.status ≡ counting
      → (let (done, s') = update_counter be co ke c s in done ≡ not (is_offline s'.status))
  unfolding update_counter
  reports_offline counter_offline s e = refl
  reports_offline counter_counting s e = elim (Bool-cases (co.update s.counter s.pktwrapper).0) [
    | inl y ↦ rw (y, e) refl
    | inr n ↦ rw n refl
  ]
  reports_offline counter_completed s e =
      let c = co.shutdown s.counter in
      elim (Bool-cases (ke.init (co.nodes c) s.key s.pktwrapper).0) [
        | inl y ↦ rw y refl
        | inr n ↦ rw n refl
      ]

  -- While it counts, `_update_counter` returns false exactly if the status is offline afterwards.
  update_counter-is_offline :
      (s : Sknx B C K)
      → s.status ≡ counting
      → (let (done, s') = update_counter be co ke (co.status s.counter) s in
          done ≡ not (is_offline s'.status))
  update_counter-is_offline s e = reports_offline (co.status s.counter) s e
