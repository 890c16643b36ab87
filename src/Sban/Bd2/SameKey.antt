-- ===== src/Sban/Bd2/SameKey.antt =====
-- A whole run of BD2 between the chair and one of its nodes.
use lib_smoke.Base.{ℕ, ◌≡◌, ap, ap₂, sym, ◌∙◌, List, some}
use lib_smoke.Sban.{Ret, ok, or_old, Polarssl}
use lib_smoke.Sban.Bd2.{Context, make_key, make_val, import_val, calc_key, make_public, read_public}
use lib_smoke.Sban.Bd2.Agreement.{
  Laws, and_then-ok, calc_key-plus, make_public-times, read_public-peer, import_val-x,
  make_val-hides,
}

module _ {Mpi Point Rng : Type 0} (p : Polarssl Mpi Point Rng) (l : Laws p) where
  pub make_key-priv :
      (c c' : Context Mpi Point) (r r' : Rng)
      → make_key p (some c) r ≡ ok (c', r')
      → c.priv ≡ c'.priv
  unfolding make_key
  make_key-priv c c' r r' e =
      let (g, e1, e2) = and_then-ok (p.gen_keypair r) _ (c', r') e in
      ap (λ (x : Ret (Context Mpi Point × Rng)). (or_old x (c', r')).0.priv) e2

  -- If the chair makes its public value and its key, a node answers with a public value of its own, the
  -- chair, with the same secret and key as then, makes the value for that node, the node takes it in
  -- and calculates the key, and all these calls succeed, then the node's key is the chair's. This is
  -- under what polarssl documents: the operations are those of a group, memory does not run out, and a
  -- point that was written is read back.
  pub calc_key-same :
      (chair chair1 chair2 busy chair3 chair4 node node1 node2 node3 node4 : Context Mpi Point)
      (n : ℕ) (z0 zi xi : List ℕ) (r0 r1 r2 r3 r4 s0 s1 s2 : Rng)
      → make_public p (some chair) n r0 ≡ ok (chair1, z0, r1)
      → make_key p (some chair1) r1 ≡ ok (chair2, r2)
      → read_public p (some node) z0 ≡ ok node1
      → make_public p (some node1) n s0 ≡ ok (node2, zi, s1)
      → busy.priv ≡ chair2.priv
      → busy.key ≡ chair2.key
      → read_public p (some busy) zi ≡ ok chair3
      → make_val p (some chair3) n r3 ≡ ok (chair4, xi, r4)
      → import_val p (some node2) xi ≡ ok node3
      → calc_key p (some node3) s1 ≡ ok (node4, s2)
      → node4.key ≡ chair2.key
  calc_key-same chair chair1 chair2 busy chair3 chair4 node node1 node2 node3 node4 n z0 zi xi r0 r1
        r2 r3 r4 s0 s1 s2 e1 e2 e3 e4 same_priv same_key e5 e6 e7 e8 =
      let sent0 = make_public-times p l chair chair1 n z0 r0 r1 e1 in
      let priv2 : chair1.priv ≡ chair2.priv = make_key-priv chair1 chair2 r1 r2 e2 in
      let z = l.times chair1.priv l.base in
      let read1 = read_public-peer p l node node1 z0 z sent0.0 e3 in
      let peer1 : z ≡ node1.peer = ap (λ (c : Context Mpi Point). c.peer) read1 in
      let senti = make_public-times p l node1 node2 n zi s0 s1 e4 in
      let w = l.times node2.priv l.base in
      let read3 = read_public-peer p l busy chair3 zi w senti.0 e5 in
      let peer3 : w ≡ chair3.peer = ap (λ (c : Context Mpi Point). c.peer) read3 in
      let priv3 : busy.priv ≡ chair3.priv = ap (λ (c : Context Mpi Point). c.priv) read3 in
      let key3 : busy.key ≡ chair3.key = ap (λ (c : Context Mpi Point). c.key) read3 in
      let (x, read_x, hides) = make_val-hides p l chair3 chair4 n xi r3 r4 e6 in
      let took = import_val-x p l node2 node3 xi x read_x e7 in
      let x3 : x ≡ node3.x = ap (λ (c : Context Mpi Point). c.x) took in
      let npriv : node2.priv ≡ node3.priv = ap (λ (c : Context Mpi Point). c.priv) took in
      let npeer : node2.peer ≡ node3.peer = ap (λ (c : Context Mpi Point). c.peer) took in
      let key4 = calc_key-plus p l node3 node4 s1 s2 e8 in
      let node_peer : node3.peer ≡ z = sym npeer ∙ (senti.2 ∙ sym peer1) in
      let chair_priv : chair1.priv ≡ chair3.priv = priv2 ∙ (sym same_priv ∙ priv3) in
      let shared : l.times node3.priv node3.peer ≡ l.times chair3.priv chair3.peer =
        ap₂ l.times (sym npriv) node_peer
        ∙ (l.commutes node2.priv chair1.priv ∙ ap₂ l.times chair_priv peer3) in
      key4 ∙ (ap₂ l.plus (sym x3) shared ∙ (hides ∙ (sym key3 ∙ same_key)))
