-- ===== src/ClientSmoke/Init.antt =====
-- When `init` succeeds, the key exchange has completed.
use lib_smoke.Base.{
  ℕ, zero, suc, ◌≡◌, refl, ap, subst, ◌∙◌, sym, List, Option, none, some, Bool, true, false,
  Bool-cases, inl, inr, if◌then◌else◌,
}
use lib_smoke.Telegram.{Telegram}
use lib_smoke.Backend.{Backend}
use lib_smoke.NodeCounter.{NodeCounter}
use lib_smoke.KeyExchange.{KeyExchange, key_completed}
use lib_smoke.Sknx
use lib_smoke.Sknx.{Sknx, get_key}
use lib_smoke.Sknx.Keyed.{Reachable, created, inits, updates, get_key-completed}
use lib_smoke.ClientSmoke.{
  ClientSmoke, stopped, state_of, agree, keep_key, agreed, start, init_with, init,
}

module _ {B C K : Type 0} (be : Backend B) (co : NodeCounter C) (ke : KeyExchange K)
    (backend_init : B → Bool × B) (assign : K → K → K) (xcrypt : K → List ℕ → List ℕ) (id : ℕ)
    (junk : Telegram) where
  -- the loop of this client
  abbrev loop : ℕ → ℕ → Option (Sknx B C K) → Option (Sknx B C K)
  loop = agree be co ke backend_init assign xcrypt id junk

  abbrev Reached : Sknx B C K → Type 0
  Reached = Reachable be co ke

  not_found : {A : Type 0} {a : A} → none ≡ some a → ⊥
  not_found e = cc e

  -- the state after an update
  next :
      (fuel : ℕ) (s : Sknx B C K)
      → Reached s
      → (o : Option (Bool × Sknx B C K)) → Sknx.update be co ke fuel id junk s ≡ o
      → (s' : Sknx B C K) → state_of be co ke backend_init assign xcrypt id junk o ≡ some s'
      → Reached s'
  next fuel s r none e s' e' = absurd (not_found e')
  next fuel s r (some (done, t)) e s' e' = subst Reached (cc e') (updates fuel id junk s t done r e)

  -- the loop stays in what SKNX can reach
  agree-Reachable :
      (n fuel : ℕ) (o : Option (Sknx B C K)) (s' : Sknx B C K)
      → ((s : Sknx B C K) → o ≡ some s → Reached s)
      → loop n fuel o ≡ some s'
      → Reached s'
  unfolding agree
  agree-Reachable n fuel none s' r e = absurd (not_found e)
  agree-Reachable zero fuel (some s) s' r e = elim (Bool-cases (stopped s.status)) [
    | inl y ↦ r s' (ap (λ b. if b then some s else none) (sym y) ∙ e)
    | inr m ↦ absurd (not_found (ap (λ b. if b then some s else none) (sym m) ∙ e))
  ]
  agree-Reachable (suc n) fuel (some s) s' r e =
      let o' = Sknx.update be co ke fuel id junk s in
      let rest = loop n fuel (state_of be co ke backend_init assign xcrypt id junk o') in
      elim (Bool-cases (stopped s.status)) [
        | inl y ↦ r s' (ap (λ b. if b then some s else rest) (sym y) ∙ e)
        | inr m ↦
            agree-Reachable n fuel (state_of be co ke backend_init assign xcrypt id junk o') s'
              (next fuel s (r s refl) o' refl) (ap (λ b. if b then some s else rest) (sym m) ∙ e)
      ]

  Reached-init :
      (b : B) (c : C) (k : K) (n : ℕ) → Reached (Sknx.init be co ke (Sknx.create b c k n)).1
  Reached-init b c k n = inits (Sknx.create b c k n) (created b c k n)

  kept :
      (o : Option K) (c c' : ClientSmoke B K)
      → some (keep_key be co ke backend_init assign xcrypt id junk o c) ≡ some (true, c')
      → (k : K) × (o ≡ some k) × (c'.key ≡ assign c.key k)
  kept none c c' e = absurd (cc e)
  kept (some k) c c' e =
      let q : record c { key = assign c.key k } ≡ c' = cc e in
      (k, refl, sym (ap (λ (x : ClientSmoke B K). x.key) q))

  agreed-completed :
      (o : Option (Sknx B C K)) (c c' : ClientSmoke B K)
      → ((s : Sknx B C K) → o ≡ some s → Reached s)
      → agreed be co ke backend_init assign xcrypt id junk o c ≡ some (true, c')
      → (k : K) × (ke.status k ≡ key_completed) × (c'.key ≡ assign c.key k)
  agreed-completed none c c' r e = absurd (not_found e)
  agreed-completed (some s) c c' r e =
      let (k, g, q) = kept (get_key s) (record c { backend = s.backend }) c' e in
      (k, get_key-completed be co ke s k (r s refl) g, q)

  start-completed :
      (n fuel : ℕ) (x : Bool × Sknx B C K) (c c' : ClientSmoke B K)
      → Reached x.1
      → start be co ke backend_init assign xcrypt id junk n fuel x c ≡ some (true, c')
      → (k : K) × (ke.status k ≡ key_completed) × (c'.key ≡ assign c.key k)
  unfolding start
  start-completed n fuel (false, s) c c' r e = absurd (cc e)
  start-completed n fuel (true, s) c c' r e =
      agreed-completed (loop n fuel (some s)) c c'
        (λ s' q. agree-Reachable n fuel (some s) s' (λ t h. subst Reached (cc h) r) q) e

  init_with-completed :
      (n fuel num_clients : ℕ) (counter : C) (key : K) (x : Bool × B) (c c' : ClientSmoke B K)
      → init_with be co ke backend_init assign xcrypt id junk n fuel num_clients counter key x c
        ≡ some (true, c')
      → (k : K) × (ke.status k ≡ key_completed) × (c'.key ≡ assign c.key k)
  unfolding init_with
  init_with-completed n fuel m counter key (false, b) c c' e = absurd (cc e)
  init_with-completed n fuel m counter key (true, b) c c' e =
      start-completed n fuel (Sknx.init be co ke (Sknx.create b counter key m))
        (record c { backend = b }) c' (Reached-init b counter key m) e

  -- If `init` returns true, then the key that the client keeps is one whose exchange has completed,
  -- whatever the bus delivered and whatever the counter and the key exchange did.
  pub init-completed :
      (n fuel num_clients : ℕ) (counter : C) (key : K) (c c' : ClientSmoke B K)
      → init be co ke backend_init assign xcrypt id junk n fuel num_clients counter key c
        ≡ some (true, c')
      → (k : K) × (ke.status k ≡ key_completed) × (c'.key ≡ assign c.key k)
  unfolding init
  init-completed n fuel m counter key c c' e =
      init_with-completed n fuel m counter key (backend_init c.backend) c c' e
