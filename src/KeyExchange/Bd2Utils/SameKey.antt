-- ===== src/KeyExchange/Bd2Utils/SameKey.antt =====
-- A whole run of BD2 between the two behaviors, packet by packet.
use lib_smoke.Base.{
  ℕ, ◌≡◌, refl, ap, sym, ◌∙◌, subst, arith, List, [], ◌∷◌, Option, some, true, ◌==◌, length,
}
use lib_smoke.Telegram.{Telegram}
use lib_smoke.PktWrapper
use lib_smoke.PktWrapper.{Pkt}
use lib_smoke.Sban.{Ret, ok, or_old, Polarssl}
use lib_smoke.Sban.Bd2.{Context, export_key}
use lib_smoke.Sban.Bd2.Agreement.{Laws}
use lib_smoke.Sban.Bd2.Wire.{Wire}
use lib_smoke.KeyExchange.Bd2Utils.{
  World, Behavior, bufsize, chair_z0, node_zi, chair_xi, chair_init, chair_on_recv, node_on_recv,
  when_inited, take_public, take_value, send_values, push,
}
use lib_smoke.KeyExchange.Bd2Utils.Sends.{
  public_of, answer_of, chair_init-ready, take_public-answers, take_value-completes,
}
use lib_smoke.KeyExchange.Bd2Utils.Answers.{
  values_of, write_values, Answers, Sent, send_values-Answers,
}

some-same : {A : Type 0} (o : Option A) (a b : A) → o ≡ some a → o ≡ some b → a ≡ b
some-same o a b e f = ap (λ x. when_inited x a (λ y. y)) (sym e ∙ f)

ok-same : {A : Type 0} (r : Ret A) (a b : A) → r ≡ ok a → r ≡ ok b → a ≡ b
ok-same r a b e f = ap (λ x. or_old x a) (sym e ∙ f)

module _ {Mpi Point Rng : Type 0} (p : Polarssl Mpi Point Rng) where
  -- the same key point is exported as the same bytes
  export_key-same :
      (c d : Context Mpi Point) (n : ℕ) → c.key ≡ d.key → export_key p c n ≡ export_key p d n
  unfolding export_key
  export_key-same c d n e = ap (λ (k : Point). export_key p (record c { key = k }) n) e

  module _ (id : ℕ) (junk : ℕ → Telegram) (memory : List ℕ) where
    -- what the chair sends is handled by the matching case of the `switch`
    node_on_recv-z0 :
        (chair dest : ℕ) (c : Context Mpi Point) (b : Behavior Mpi Point) (s : World Rng)
        (bytes : List ℕ)
        → b.ctx ≡ some c
        → length bytes ≡ bufsize
        → node_on_recv p id junk memory chair b s
            (record { cmd = chair_z0; src = chair; dest = dest; payload = bytes })
          ≡ take_public p id junk memory chair c b s
              (record { cmd = chair_z0; src = chair; dest = dest; payload = bytes })
    unfolding node_on_recv
    node_on_recv-z0 chair dest c b s bytes o full =
        let size : (length bytes == bufsize) ≡ true = ground (arith, full) in
        let same : (chair == chair) ≡ true = ground arith in rw (o, size, same) refl

    node_on_recv-xi :
        (chair dest : ℕ) (c : Context Mpi Point) (b : Behavior Mpi Point) (s : World Rng)
        (bytes : List ℕ)
        → b.ctx ≡ some c
        → length bytes ≡ bufsize
        → node_on_recv p id junk memory chair b s
            (record { cmd = chair_xi; src = chair; dest = dest; payload = bytes })
          ≡ take_value p id junk memory c b s
              (record { cmd = chair_xi; src = chair; dest = dest; payload = bytes })
    unfolding node_on_recv
    node_on_recv-xi chair dest c b s bytes o full =
        let size : (length bytes == bufsize) ≡ true = ground (arith, full) in
        let same : (chair == chair) ≡ true = ground arith in rw (o, size, same) refl

    chair_on_recv-zi :
        (node : ℕ) (c : Context Mpi Point) (b : Behavior Mpi Point) (s : World Rng) (bytes : List ℕ)
        → b.ctx ≡ some c
        → length bytes ≡ bufsize
        → chair_on_recv p id junk memory 2 [] b s
            (record { cmd = node_zi; src = node; dest = id; payload = bytes })
          ≡ send_values p id junk memory 2 c b s ((node, bytes) ∷ [])
    unfolding chair_on_recv push
    chair_on_recv-zi node c b s bytes o full =
        let size : (length bytes == bufsize) ≡ true = ground (arith, full) in
        let same : (id == id) ≡ true = ground arith in rw (o, size, same) refl

module _ {Mpi Point Rng : Type 0} (p : Polarssl Mpi Point Rng) (l : Laws p) (wire : Wire p)
    (id id' : ℕ) (junk junk' : ℕ → Telegram) (memory memory' : List ℕ)
    (full : length memory ≡ bufsize) (full' : length memory' ≡ bufsize) where
  abbrev pub SameKey :
      World Rng
      → World Rng
      → World Rng
      → World Rng
      → World Rng
      → World Rng
      → Behavior Mpi Point
      → Behavior Mpi Point
      → List ℕ
      → List ℕ
      → List ℕ
      → Type 0
  SameKey s s1 t t1 s2 s3 chair2 node2 z zi x =
      (node2.completed ≡ true)
      × (chair2.completed ≡ true)
      × (node2.keylen ≡ chair2.keylen)
      × (node2.key ≡ chair2.key)
      × (s1.pkts ≡ (PktWrapper.write_all id junk s.pkts chair_z0 z).1)
      × (t1.pkts ≡ (PktWrapper.write id' junk' t.pkts id node_zi zi).1)
      × (s3.pkts ≡ (PktWrapper.write id junk s2.pkts id' chair_xi x).1)

  -- BD2 between a chair and one node, by the behaviors themselves: if `init` of the chair succeeds, the
  -- node takes in the value that it has sent, the chair, with the context that `init` left, takes in the
  -- node's answer, the node takes in the chair's answer to that, and all of these calls return true,
  -- then both behaviors have completed, the node's key and its length are the chair's, and the three
  -- packets that were written are these values. This is under what polarssl documents, with buffers of
  -- 66 bytes on both sides: the operations are those of a group, memory does not run out, a point that
  -- was written is read back, and what follows it in the buffer is not read.
  pub on_recv-SameKey :
      (chair chair1 chair2 node node1 node2 : Behavior Mpi Point) (c0 c1 d0 : Context Mpi Point)
      (s s1 s2 s3 t t1 t2 t3 : World Rng) (dest : ℕ) (z zi x : List ℕ)
      → chair.ctx ≡ some c0
      → chair1.ctx ≡ some c1
      → node.ctx ≡ some d0
      → public_of p memory c0 s.rng ≡ z
      → answer_of p memory' d0 t.rng z ≡ zi
      → values_of p memory c1 s2.rng ((id', zi) ∷ []) ≡ x ∷ []
      → chair_init p id junk memory chair s ≡ (true, chair1, s1)
      → node_on_recv p id' junk' memory' id node t
          (record { cmd = chair_z0; src = id; dest = dest; payload = z })
        ≡ (true, node1, t1)
      → chair_on_recv p id junk memory 2 [] chair1 s2
          (record { cmd = node_zi; src = id'; dest = id; payload = zi })
        ≡ (true, chair2, s3)
      → node_on_recv p id' junk' memory' id node1 t2
          (record { cmd = chair_xi; src = id; dest = id'; payload = x })
        ≡ (true, node2, t3)
      → SameKey s s1 t t1 s2 s3 chair2 node2 z zi x
  unfolding PktWrapper.write write_values
  on_recv-SameKey chair chair1 chair2 node node1 node2 c0 c1 d0 s s1 s2 s3 t t1 t2 t3 dest z zi x o
        o1 od ez ezi ex e1 e2 e3 e4 =
      let (k0, k1, q0, q1, exported, pub0, wrote0) =
        chair_init-ready p l wire id junk memory full chair chair1 s s1 e1 in
      let s0 : k0 ≡ c0 = some-same chair.ctx k0 c0 q0 o in
      let s1' : k1 ≡ c1 = some-same chair1.ctx k1 c1 q1 o1 in
      let z_eq : public_of p memory k0 s.rng ≡ z = ap (λ c. public_of p memory c s.rng) s0 ∙ ez in
      let base = l.times c1.priv l.base in
      let z_read : p.read_point z ≡ ok base =
        ap p.read_point (sym z_eq)
        ∙ (pub0.0 ∙ ap (λ (c : Context Mpi Point). ok (l.times c.priv l.base)) s1') in
      let z_size : length z ≡ bufsize = ap length (sym z_eq) ∙ pub0.1 in
      let (d1, n1, peer1, pub1, wrote1) =
        take_public-answers p l wire id' junk' memory' full' id d0 node node1 t t1 chair_z0 id dest
          z base z_read
          (sym (node_on_recv-z0 p id' junk' memory' id dest d0 node t z od z_size) ∙ e2) in
      let sent : Sent p l wire id junk memory full c1 chair1 s2 ((id', zi) ∷ []) chair2 s3 =
        send_values-Answers p l wire id junk memory full 2 c1 chair1 chair2 s2 s3 ((id', zi) ∷ []) (
          sym (
            chair_on_recv-zi p id junk memory id' c1 chair1 s2 zi o1 (ap length (sym ezi) ∙ pub1.1))
          ∙ e3) in
      let ans : Answers p l wire id junk memory full c1.priv c1.key ((id', zi) ∷ []) (x ∷ []) =
        subst (Answers p l wire id junk memory full c1.priv c1.key ((id', zi) ∷ [])) ex sent.0 in
      let (w, y, w_read, y_read, hides, x_size) = ans.0 in
      let (d2, key2, exported2, done) =
        take_value-completes p l wire id' junk' memory' full' d1 node1 node2 t2 t3 chair_xi id id' x
          y y_read
          (sym (node_on_recv-xi p id' junk' memory' id id' d1 node1 t2 x n1 x_size) ∙ e4) in
      let w_eq : l.times d1.priv l.base ≡ w =
        ok-same (p.read_point zi) _ w (ap p.read_point (sym ezi) ∙ pub1.0) w_read in
      let shared : l.times d1.priv d1.peer ≡ l.times c1.priv w =
        ap (l.times d1.priv) peer1 ∙ (l.commutes d1.priv c1.priv ∙ ap (l.times c1.priv) w_eq) in
      let keys : d2.key ≡ c1.key = key2 ∙ (ap (l.plus y) shared ∙ hides) in
      let same : (node2.keylen, node2.key) ≡ (chair1.keylen, chair1.key) =
        ok-same (export_key p d2 bufsize) _ _ exported2 (
          export_key-same p d2 c1 bufsize keys
          ∙ (ap (λ c. export_key p c bufsize) (sym s1') ∙ exported)) in
      (
        done,
        sent.2,
        ap (λ (k : ℕ × List ℕ). k.0) same ∙ sym sent.3,
        ap (λ (k : ℕ × List ℕ). k.1) same ∙ sym sent.4,
        wrote0 ∙ ap (λ b. (PktWrapper.write_all id junk s.pkts chair_z0 b).1) z_eq,
        wrote1 ∙ ap (λ b. (PktWrapper.write id' junk' t.pkts id node_zi b).1) ezi,
        sent.1 ∙ ap (write_values id junk s2.pkts ((id', zi) ∷ [])) ex,
      )
