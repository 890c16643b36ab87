-- ===== src/KeyExchange/Bd2Utils/Answers.antt =====
-- The chair's answers: one value to each public value in its queue.
use lib_smoke.Base.{ℕ, ◌≡◌, ap, sym, ◌∙◌, subst, List, [], ◌∷◌, some, true, false, length}
use lib_smoke.Telegram.{Telegram}
use lib_smoke.PktWrapper
use lib_smoke.PktWrapper.{PktWrapper, Pkt}
use lib_smoke.Sban.{Ret, ok, check, or_old, Polarssl, opp}
use lib_smoke.Sban.Bd2.{Context, compute_shared_point, make_val, read_public}
use lib_smoke.Sban.Bd2.Agreement.{Laws, and_then-ok, make_val-hides}
use lib_smoke.Sban.Bd2.Wire.{Wire, make_val-short}
use lib_smoke.KeyExchange.Bd2Utils.{
  World, Behavior, chair_role, bufsize, filled, chair_xi, Outcome, send_values,
}
use lib_smoke.KeyExchange.Bd2Utils.Sends.{check-good, length-filled, filled-reads}

module _ {Mpi Point Rng : Type 0} (p : Polarssl Mpi Point Rng) (memory : List ℕ) where
  -- The values that the chair makes for a queue.
  unfoldable pub values_of : Context Mpi Point → Rng → List (ℕ × List ℕ) → List (List ℕ)
  values_of c rng [] = []
  values_of c rng (k ∷ queue) = check (read_public p (some c) k.1) [] λ c1.
      check (make_val p (some c1) bufsize rng) [] λ r. filled memory r.1 ∷ values_of r.0 r.2 queue

-- one packet to each node of a queue, with its value
unfoldable pub write_values :
    ℕ → (ℕ → Telegram) → PktWrapper → List (ℕ × List ℕ) → List (List ℕ) → PktWrapper
write_values id junk w (k ∷ queue) (x ∷ xs) =
    write_values id junk (PktWrapper.write id junk w k.0 chair_xi x).1 queue xs
write_values id junk w queue xs = w

module _ {Mpi Point Rng : Type 0} (p : Polarssl Mpi Point Rng) (l : Laws p) (wire : Wire p) (id : ℕ)
    (junk : ℕ → Telegram) (memory : List ℕ) (full : length memory ≡ bufsize) where
  -- Each value hides the key `key` by the secret that `priv` shares with the public value it answers,
  -- and there is one for each.
  abbrev pub Answers : Mpi → Point → List (ℕ × List ℕ) → List (List ℕ) → Type 0
  Answers priv key [] [] = Unit {0}
  Answers priv key [] (x ∷ xs) = true ≡ false
  Answers priv key (k ∷ queue) [] = true ≡ false
  Answers priv key (k ∷ queue) (x ∷ xs) =
      ((w : Point) × (y : Point) × (p.read_point k.1 ≡ ok w)
        × (p.read_point x ≡ ok y)
        × (l.plus y (l.times priv w) ≡ key)
        × (length x ≡ bufsize))
      × Answers priv key queue xs

  read_public-good :
      (c c' : Context Mpi Point) (bytes : List ℕ)
      → read_public p (some c) bytes ≡ ok c'
      → (q : Point) × (p.read_point bytes ≡ ok q) × (record c { peer = q } ≡ c')
  unfolding read_public
  read_public-good c c' bytes e =
      let (q, e1, e2) = and_then-ok (p.read_point bytes) _ c' e in
      (q, e1, ap (λ (x : Ret (Context Mpi Point)). or_old x c') e2)

  make_val-keeps :
      (c c' : Context Mpi Point) (n : ℕ) (bytes : List ℕ) (rng rng' : Rng)
      → make_val p (some c) n rng ≡ ok (c', bytes, rng')
      → (c.priv ≡ c'.priv) × (c.key ≡ c'.key)
  unfolding make_val
  make_val-keeps c c' n bytes rng rng' e =
      let (r, e1, e2) = and_then-ok (compute_shared_point p c rng) _ (c', bytes, rng') e in
      let hidden : Point = or_old (p.add c.key (or_old (opp p r.0) p.zero_point)) c.x in
      let (b, e3, e4) = and_then-ok (p.write_point hidden n) _ (c', bytes, rng') e2 in
      (
        ap (λ (x : Ret (Context Mpi Point × List ℕ × Rng)). (or_old x (c', bytes, rng')).0.priv) e4,
        ap (λ (x : Ret (Context Mpi Point × List ℕ × Rng)). (or_old x (c', bytes, rng')).0.key) e4,
      )

  abbrev pub Sent :
      Context Mpi Point
      → Behavior Mpi Point
      → World Rng
      → List (ℕ × List ℕ)
      → Behavior Mpi Point
      → World Rng
      → Type 0
  Sent c b s queue b' s' =
      Answers c.priv c.key queue (values_of p memory c s.rng queue)
      × (s'.pkts ≡ write_values id junk s.pkts queue (values_of p memory c s.rng queue))
      × (b'.completed ≡ true)
      × (b'.keylen ≡ b.keylen)
      × (b'.key ≡ b.key)

  -- If the loop of the chair over its queue of public values succeeds, then it has sent to each node of
  -- the queue, in its order, one value of 66 bytes that hides the chair's key by the secret that the
  -- chair shares with that node, the behavior has completed, and its key is as it was.
  pub send_values-Answers :
      (n : ℕ) (c : Context Mpi Point) (b b' : Behavior Mpi Point) (s s' : World Rng)
      (queue : List (ℕ × List ℕ))
      → send_values p id junk memory n c b s queue ≡ (true, b', s')
      → Sent c b s queue b' s'
  unfolding send_values values_of write_values
  send_values-Answers n c b b' s s' [] e =
      let same = ap (λ (x : Outcome p id junk memory). x.1) e in
      (
        tt,
        sym (ap (λ (x : Outcome p id junk memory). x.2.pkts) e),
        sym (ap (λ (b : Behavior Mpi Point). b.completed) same),
        sym (ap (λ (b : Behavior Mpi Point). b.keylen) same),
        sym (ap (λ (b : Behavior Mpi Point). b.key) same),
      )
  send_values-Answers n c b b' s s' (k ∷ queue) e =
      let role = chair_role n (k ∷ queue) in
      let (c1, e1, e2) =
        check-good (read_public p (some c) k.1) (record b { role = role; ctx = some c }, s) _
          (b', s') e in
      let (r, e3, e4) =
        check-good (make_val p (some c1) bufsize s.rng) (record b { role = role; ctx = some c1 }, s)
          _ (b', s') e2 in
      let s1 : World Rng = record {
        rng = r.2;
        pkts = (PktWrapper.write id junk s.pkts k.0 chair_xi (filled memory r.1)).1;
      } in
      let (w, rd, took) = read_public-good c c1 k.1 e1 in
      let (y, ry, hides) = make_val-hides p l c1 r.0 bufsize r.1 s.rng r.2 e3 in
      let keeps = make_val-keeps c1 r.0 bufsize r.1 s.rng r.2 e3 in
      let priv1 : c.priv ≡ c1.priv = ap (λ (c : Context Mpi Point). c.priv) took in
      let key1 : c.key ≡ c1.key = ap (λ (c : Context Mpi Point). c.key) took in
      let peer1 : w ≡ c1.peer = ap (λ (c : Context Mpi Point). c.peer) took in
      let shared : l.times c.priv w ≡ l.times c1.priv c1.peer =
        ap (λ a. l.times a w) priv1 ∙ ap (l.times c1.priv) peer1 in
      let vals : values_of p memory c s.rng (k ∷ queue)
          ≡ filled memory r.1 ∷ values_of p memory r.0 r.2 queue =
        ap
          (λ (x : Ret (Context Mpi Point)). check x [] λ c1.
            check (make_val p (some c1) bufsize s.rng) []
              λ r. filled memory r.1 ∷ values_of p memory r.0 r.2 queue)
          e1
        ∙ ap
            (λ (x : Ret (Context Mpi Point × List ℕ × Rng)).
              check x [] λ r. filled memory r.1 ∷ values_of p memory r.0 r.2 queue)
            e3 in
      let rest = send_values-Answers n r.0 b b' s1 s' queue e4 in
      let others : Answers c.priv c.key queue (values_of p memory r.0 r.2 queue) =
        subst (λ a. Answers a c.key queue (values_of p memory r.0 r.2 queue))
          (sym (priv1 ∙ keeps.0))
          (subst (λ a. Answers r.0.priv a queue (values_of p memory r.0 r.2 queue))
            (sym (key1 ∙ keeps.1)) rest.0) in
      (
        subst (Answers c.priv c.key (k ∷ queue)) (sym vals) (
          (
            w,
            y,
            rd,
            filled-reads p l wire id junk memory full r.1 y ry,
            ap (l.plus y) shared ∙ (hides ∙ sym key1),
            length-filled memory r.1 full (make_val-short p wire c1 r.0 bufsize r.1 s.rng r.2 e3),
          ),
          others,
        ),
        rest.1 ∙ ap (write_values id junk s.pkts (k ∷ queue)) (sym vals),
        rest.2,
        rest.3,
        rest.4,
      )
