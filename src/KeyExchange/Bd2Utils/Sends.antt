-- ===== src/KeyExchange/Bd2Utils/Sends.antt =====
-- The behaviors of BD2, call by call: what each sends, and what it keeps.
use lib_smoke.Base.{
  ℕ, ◌≤◌, ◌≡◌, refl, ap, ap₂, sym, ◌∙◌, arith, List, [], Option, none, some, Bool, true, false,
  length, length-append, length-drop, drop,
}
use lib_smoke.PktWrapper
use lib_smoke.PktWrapper.{PktWrapper}
use lib_smoke.Telegram.{Telegram}
use lib_smoke.Sban.{Ret, ok, fail, check, Polarssl}
use lib_smoke.Sban.Bd2.{
  Context, make_key, export_key, import_val, calc_key, make_public, read_public,
}
use lib_smoke.Sban.Bd2.Agreement.{
  Laws, calc_key-plus, make_public-times, read_public-peer, import_val-x,
}
use lib_smoke.Sban.Bd2.SameKey.{make_key-priv}
use lib_smoke.Sban.Bd2.Wire.{Wire, make_public-short}
use lib_smoke.KeyExchange.Bd2Utils.{
  World, Behavior, bufsize, filled, when_inited, chair_z0, node_zi, Outcome, export, chair_init,
  take_public, take_value,
}

-- a call that is checked, on the way to an outcome that is good
pub check-good :
    {A B C : Type 0} (r : Ret A) (bad : B × C) (f : A → Bool × B × C) (y : B × C)
    → check r (false, bad.0, bad.1) f ≡ (true, y.0, y.1)
    → (a : A) × (r ≡ ok a) × (f a ≡ (true, y.0, y.1))
check-good (ok a) bad f y e = (a, refl, e)
check-good {B} {C} (fail c) bad f y e = absurd (cc (ap (λ (x : Bool × B × C). x.0) e))

pub length-filled :
    (memory bytes : List ℕ)
    → length memory ≡ bufsize
    → length bytes ≤ bufsize
    → length (filled memory bytes) ≡ bufsize
unfolding filled
length-filled memory bytes m b = omega (
  arith,
  length-append bytes (drop (length bytes) memory),
  length-drop (length bytes) memory,
  m,
  b,
)

pub when_inited-good :
    {A B C : Type 0} (o : Option A) (bad : B × C) (f : A → Bool × B × C) (y : B × C)
    → when_inited o (false, bad.0, bad.1) f ≡ (true, y.0, y.1)
    → (a : A) × (o ≡ some a) × (f a ≡ (true, y.0, y.1))
when_inited-good (some a) bad f y e = (a, refl, e)
when_inited-good {A} {B} {C} none bad f y e = absurd (cc (ap (λ (x : Bool × B × C). x.0) e))

module _ {Mpi Point Rng : Type 0} (p : Polarssl Mpi Point Rng) (memory : List ℕ) where
  -- The bytes that `ChairBehavior::init` sends.
  unfoldable pub public_of : Context Mpi Point → Rng → List ℕ
  public_of c rng = check (make_public p (some c) bufsize rng) [] λ r. filled memory r.1

  -- The bytes with which a node answers them.
  unfoldable pub answer_of : Context Mpi Point → Rng → List ℕ → List ℕ
  unfolding public_of
  answer_of c rng bytes = check (read_public p (some c) bytes) [] λ c1. public_of c1 rng

module _ {Mpi Point Rng : Type 0} (p : Polarssl Mpi Point Rng) (l : Laws p) (wire : Wire p) (id : ℕ)
    (junk : ℕ → Telegram) (memory : List ℕ) (full : length memory ≡ bufsize) where
  export-good :
      (c : Context Mpi Point) (b b' : Behavior Mpi Point) (s s' : World Rng) (done : Bool)
      → export p id junk memory c b s done ≡ (true, b', s')
      → (export_key p c bufsize ≡ ok (b'.keylen, b'.key))
        × (b'.completed ≡ done)
        × (b'.ctx ≡ b.ctx)
        × (s' ≡ s)
  unfolding export
  export-good c b b' s s' done e =
      let (k, e1, e2) = check-good (export_key p c bufsize) (b, s) _ (b', s') e in
      let same = ap (λ (x : Outcome p id junk memory). x.1) e2 in
      (
        e1
            ∙ ap ok (
                ap₂ (λ (n : ℕ) (bytes : List ℕ). (n, bytes))
                  (ap (λ (b : Behavior Mpi Point). b.keylen) same)
                  (ap (λ (b : Behavior Mpi Point). b.key) same)),
        sym (ap (λ (b : Behavior Mpi Point). b.completed) same),
        sym (ap (λ (b : Behavior Mpi Point). b.ctx) same),
        sym (ap (λ (x : Outcome p id junk memory). x.2) e2),
      )

  -- a buffer that is filled reads as the point that was written
  pub filled-reads :
      (bytes : List ℕ) (q : Point)
      → p.read_point bytes ≡ ok q
      → p.read_point (filled memory bytes) ≡ ok q
  unfolding filled
  filled-reads bytes q e = wire.trailing q bytes (drop (length bytes) memory) e

  abbrev pub Public : Context Mpi Point → List ℕ → Type 0
  Public c bytes = (p.read_point bytes ≡ ok (l.times c.priv l.base)) × (length bytes ≡ bufsize)

  public_of-Public :
      (c c' : Context Mpi Point) (bytes : List ℕ) (rng rng' : Rng)
      → make_public p (some c) bufsize rng ≡ ok (c', bytes, rng')
      → (public_of p memory c rng ≡ filled memory bytes) × Public c' (filled memory bytes)
  unfolding public_of
  public_of-Public c c' bytes rng rng' e = (
    ap (λ (r : Ret (Context Mpi Point × List ℕ × Rng)). check r [] λ r. filled memory r.1) e,
    (
      filled-reads bytes _ (make_public-times p l c c' bufsize bytes rng rng' e).0,
      length-filled memory bytes full (make_public-short p wire c c' bufsize bytes rng rng' e),
    ),
  )

  -- what a chair holds after `init`
  abbrev pub ChairReady : Behavior Mpi Point → World Rng → Behavior Mpi Point → World Rng → Type 0
  ChairReady b s b' s' =
      (c0 : Context Mpi Point) × (c : Context Mpi Point) × (b.ctx ≡ some c0)
      × (b'.ctx ≡ some c)
      × (export_key p c bufsize ≡ ok (b'.keylen, b'.key))
      × Public c (public_of p memory c0 s.rng)
      × (s'.pkts ≡ (PktWrapper.write_all id junk s.pkts chair_z0 (public_of p memory c0 s.rng)).1)

  pub chair_init-ready :
      (b b' : Behavior Mpi Point) (s s' : World Rng)
      → chair_init p id junk memory b s ≡ (true, b', s')
      → ChairReady b s b' s'
  unfolding chair_init
  chair_init-ready b b' s s' e =
      let (c0, o, e1) = when_inited-good b.ctx (b, s) _ (b', s') e in
      let (r, m, e2) = check-good (make_public p (some c0) bufsize s.rng) (b, s) _ (b', s') e1 in
      let sent = public_of-Public c0 r.0 r.1 s.rng r.2 m in
      let b1 = record b { ctx = some r.0 } in
      let s1 : World Rng = record {
        rng = r.2;
        pkts = (PktWrapper.write_all id junk s.pkts chair_z0 (filled memory r.1)).1;
      } in
      let (k, mk, e3) = check-good (make_key p (some r.0) r.2) (b1, s1) _ (b', s') e2 in
      let (ex, done, kept, world) =
        export-good k.0 (record b1 { ctx = some k.0 }) b' (record s1 { rng = k.1 }) s' b.completed
          e3 in
      let same_priv = make_key-priv p l r.0 k.0 r.2 k.1 mk in
      (
        c0,
        k.0,
        o,
        kept,
        ex,
        (
          ap p.read_point sent.0 ∙ (sent.1.0 ∙ ap (λ x. ok (l.times x l.base)) same_priv),
          ap length sent.0 ∙ sent.1.1,
        ),
        ap (λ (w : World Rng). w.pkts) world
            ∙ ap (λ x. (PktWrapper.write_all id junk s.pkts chair_z0 x).1) (sym sent.0),
      )

  -- what a node holds after the chair's public value `z`
  pub take_public-answers :
      (chair : ℕ) (c : Context Mpi Point) (b b' : Behavior Mpi Point) (s s' : World Rng)
      (cmd src dest : ℕ) (bytes : List ℕ) (z : Point)
      → p.read_point bytes ≡ ok z
      → take_public p id junk memory chair c b s
          (record { cmd = cmd; src = src; dest = dest; payload = bytes })
        ≡ (true, b', s')
      → (c' : Context Mpi Point) × (b'.ctx ≡ some c')
        × (c'.peer ≡ z)
        × Public c' (answer_of p memory c s.rng bytes)
        × (s'.pkts
            ≡ (PktWrapper.write id junk s.pkts chair node_zi (answer_of p memory c s.rng bytes)).1)
  unfolding take_public answer_of
  take_public-answers chair c b b' s s' cmd src dest bytes z rd e =
      let (c1, e1, e2) = check-good (read_public p (some c) bytes) (b, s) _ (b', s') e in
      let (r, m, e3) =
        check-good (make_public p (some c1) bufsize s.rng) (record b { ctx = some c1 }, s) _
          (b', s') e2 in
      let peer1 : z ≡ c1.peer =
        ap (λ (c : Context Mpi Point). c.peer) (read_public-peer p l c c1 bytes z rd e1) in
      let sent = public_of-Public c1 r.0 r.1 s.rng r.2 m in
      let ans : answer_of p memory c s.rng bytes ≡ filled memory r.1 =
        ap (λ (x : Ret (Context Mpi Point)). check x [] λ c1. public_of p memory c1 s.rng) e1
        ∙ sent.0 in
      (
        r.0,
        sym (ap (λ (x : Outcome p id junk memory). x.1.ctx) e3),
        (make_public-times p l c1 r.0 bufsize r.1 s.rng r.2 m).2 ∙ sym peer1,
        (ap p.read_point ans ∙ sent.1.0, ap length ans ∙ sent.1.1),
        sym (ap (λ (x : Outcome p id junk memory). x.2.pkts) e3)
            ∙ ap (λ x. (PktWrapper.write id junk s.pkts chair node_zi x).1) (sym ans),
      )

  pub take_value-completes :
      (c : Context Mpi Point) (b b' : Behavior Mpi Point) (s s' : World Rng) (cmd src dest : ℕ)
      (bytes : List ℕ) (x : Point)
      → p.read_point bytes ≡ ok x
      → take_value p id junk memory c b s
          (record { cmd = cmd; src = src; dest = dest; payload = bytes })
        ≡ (true, b', s')
      → (c' : Context Mpi Point) × (c'.key ≡ l.plus x (l.times c.priv c.peer))
        × (export_key p c' bufsize ≡ ok (b'.keylen, b'.key))
        × (b'.completed ≡ true)
  unfolding take_value
  take_value-completes c b b' s s' cmd src dest bytes x rd e =
      let (c1, e1, e2) = check-good (import_val p (some c) bytes) (b, s) _ (b', s') e in
      let (r, e3, e4) =
        check-good (calc_key p (some c1) s.rng) (record b { ctx = some c1 }, s) _ (b', s') e2 in
      let took = import_val-x p l c c1 bytes x rd e1 in
      let (ex, done, kept, world) =
        export-good r.0 (record b { ctx = some r.0 }) b' (record s { rng = r.1 }) s' true e4 in
      (
        r.0,
        calc_key-plus p l c1 r.0 s.rng r.1 e3
            ∙ ap (λ (c : Context Mpi Point). l.plus c.x (l.times c.priv c.peer)) (sym took),
        ex,
        done,
      )
