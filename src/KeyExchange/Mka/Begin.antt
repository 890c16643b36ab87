-- ===== src/KeyExchange/Mka/Begin.antt =====
-- What `init` of MKA for two nodes leaves, when it returns true.
use lib_smoke.Base.{
  ℕ, ◌-◌, ◌*◌, ◌≡◌, ap, sym, ◌∙◌, List, [], ◌∷◌, ◌++◌, some, Bool, true, not, ◌||◌, ltb, length,
  take, replicate,
}
use lib_smoke.Telegram.{Telegram}
use lib_smoke.PktWrapper
use lib_smoke.PktWrapper.{PktWrapper}
use lib_smoke.Sban.{ok, Polarssl, Arithmetic}
use lib_smoke.Sban.Mka as Library
use lib_smoke.Sban.Mka.{Context, set_part, make_broadval}
use lib_smoke.KeyExchange.{is_offline, key_running, key_error}
use lib_smoke.KeyExchange.Bd2Utils.{filled}
use lib_smoke.KeyExchange.Bd2Utils.Sends.{check-good}
use lib_smoke.KeyExchange.Mka.{Mka, Outcome, bufsize, mka_packet, init_part, crypto_broadcast, init}
use lib_smoke.KeyExchange.Mka.Update.{past_refusal, sized}
use lib_smoke.KeyExchange.Mka.Pair.{begun}

module _ {Mpi Point Rng : Type 0} (p : Polarssl Mpi Point Rng) (q : Arithmetic Mpi Point) (id : ℕ)
    (junk : ℕ → Telegram) (memory : List ℕ) (available : Bool) where
  -- the context took part in MKA for two, and its value went to the wrapper
  abbrev pub Began :
      ℕ → ℕ → Mka Mpi Point Rng → Mka Mpi Point Rng → PktWrapper → PktWrapper → Type 0
  Began a b s s' w w' =
      (c : Context Mpi Point) × (c1 : Context Mpi Point) × (r1 : Rng) × (c2 : Context Mpi Point)
      × (z : List ℕ) × (r2 : Rng) × (keys : List ℕ) × (set_part p q (some c) 2 s.rng ≡ ok (c1, r1))
      × (make_broadval p q (some c1) bufsize r1 ≡ ok (c2, z, r2))
      × (length keys ≡ bufsize)
      × (s' ≡ begun a b s.key s.keylen keys c2 r2)
      × (w' ≡ (PktWrapper.write_all id junk w mka_packet (0 ∷ filled memory z)).1)

  pub init-Began :
      (a b : ℕ) (s s' : Mka Mpi Point Rng) (w w' : PktWrapper)
      → s.next_step ≡ []
      → init p q id junk memory available (a ∷ b ∷ []) s w ≡ (true, s', w')
      → Began a b s s' w w'
  unfolding init init_part crypto_broadcast
  init-Began a b s s' w w' none_left e =
      let s1 : Mka Mpi Point Rng = record s { status = key_running; nodes = a ∷ b ∷ [] } in
      let (offline, e1) = past_refusal (not (is_offline s.status)) (s, w) _ (s', w') e in
      let (sizes, e2) =
        past_refusal (ltb 255 (length s1.nodes) || ltb (length s1.nodes) 2) (s, w) _ (s', w') e1 in
      let failed : Mka Mpi Point Rng × PktWrapper = (record s1 { status = key_error }, w) in
      let (random, e3) = past_refusal (not available) failed _ (s', w') e2 in
      let (c, i, e4) = check-good (Library.init p q (some s.ctx) 3) failed _ (s', w') e3 in
      let (r, part, e5) = check-good (set_part p q (some c) 2 s.rng) failed _ (s', w') e4 in
      let keys = take (bufsize * (2 - 1)) (s.remote_keys ++ replicate (bufsize * (2 - 1)) 0) in
      let s2 : Mka Mpi Point Rng = record s1 {
        ctx = r.0;
        rng = r.1;
        remote_keys = keys;
        remote_users = [];
        current_step = 0;
      } in
      let (z, sent, e6) =
        check-good (make_broadval p q (some r.0) bufsize r.1) (record s2 { status = key_error }, w)
          _ (s', w') e5 in
      (
        c,
        r.0,
        r.1,
        z.0,
        z.1,
        z.2,
        keys,
        part,
        sent,
        sized s.remote_keys (bufsize * (2 - 1)),
        sym (ap (λ (x : Outcome p q id junk memory available). x.1) e6)
            ∙ ap (λ n. record (begun a b s.key s.keylen keys z.0 z.2) { next_step = n }) none_left,
        sym (ap (λ (x : Outcome p q id junk memory available). x.2) e6),
      )
