-- ===== src/Server/Run.antt =====
-- What holds between two runs, and when a run has no defined result.
use lib_smoke.Base.{
  ℕ, suc, refl, arith, ◌≡◌, ap, List, [], ◌∷◌, ◌++◌, Option, none, some, Bool, true, false, not,
  ◌&&◌, inl, inr, Bool-cases, ◌||◌, ◌∙◌, ◌⊎◌, All,
}
use lib_smoke.Backend.{Recv, recv_failed, recv_bytes}
use lib_smoke.Server.{
  Client, Server, Events, is_none, register, set_for, connect, take_in, receive, send_round,
  send_all, remove, serve, run,
}

-- a client that is to stay
abbrev pub Connected : Client → Type 0
Connected c = (c.must_delete ≡ false) × (is_none c.sock ≡ false)

-- Between two runs nothing is queued, and every client has a socket and is to stay.
pub record IsClean (s : Server) : Type 0 where
  pub queue : s.pkt_queue ≡ []
  pub connected : All Connected s.clients

-- every client that is to stay has a socket
abbrev Kept : Client → Type 0
Kept c = c.must_delete ≡ false → is_none c.sock ≡ false

pub register-Connected : (cs : List Client) → All Connected cs → register cs ≡ cs
unfolding register
register-Connected [] a = refl
register-Connected (c ∷ cs) a = ground (arith, a.0, register-Connected cs a.1)

remove-Connected : (cs : List Client) → All Kept cs → All Connected (remove cs).0
unfolding remove
remove-Connected [] a = tt
remove-Connected (c ∷ cs) a = ground (arith, a.0, remove-Connected cs a.1)

take_in-Kept : (r : Recv) (c : Client) → Kept c → Kept (take_in r c).0
take_in-Kept recv_failed c k = λ e. absurd (ground (arith, e))
take_in-Kept (recv_bytes []) c k = λ e. absurd (ground (arith, e))
take_in-Kept (recv_bytes (b ∷ bs)) c k = k

receive-Kept : (ev : Events) (i : ℕ) (cs : List Client) → All Kept cs → All Kept (receive ev i cs).0
unfolding receive
receive-Kept ev i [] a = tt
receive-Kept ev i (c ∷ cs) a = elim (Bool-cases (c.must_delete || not (set_for ev.is_set c.sock))) [
  | inl skip ↦ rw skip (a.0, receive-Kept ev (suc i) cs a.1)
  | inr go ↦ rw go (take_in-Kept (ev.recv i) c a.0, receive-Kept ev (suc i) cs a.1)
]

send_round-Kept :
    (ev : Events) (k i : ℕ) (packet : List ℕ) (cs : List Client)
    → All Kept cs
    → All Kept (send_round ev k i packet cs).0
unfolding send_round
send_round-Kept ev k i packet [] a = tt
send_round-Kept ev k i packet (c ∷ cs) a =
    ground (arith, a.0, send_round-Kept ev k (suc i) packet cs a.1)

send_all-Kept :
    (ev : Events) (k : ℕ) (packets : List (List ℕ)) (cs : List Client)
    → All Kept cs
    → All Kept (send_all ev k packets cs).0
unfolding send_all
send_all-Kept ev k [] cs a = a
send_all-Kept ev k (packet ∷ packets) cs a =
    send_all-Kept ev (suc k) packets (send_round ev k 0 packet cs).0
      (send_round-Kept ev k 0 packet cs a)

Connected-Kept : (cs : List Client) → All Connected cs → All Kept cs
Connected-Kept [] a = tt
Connected-Kept (c ∷ cs) a = (λ e. a.0.1, Connected-Kept cs a.1)

pub All-snoc :
    (P : Client → Type 0) (cs : List Client) (c : Client) → All P cs → P c → All P (cs ++ (c ∷ []))
All-snoc P [] c a p = (p, tt)
All-snoc P (d ∷ cs) c a p = (a.0, All-snoc P cs c a.1 p)

connect-Kept :
    (new : Bool) (accepted : Option ℕ) (cs : List Client)
    → All Kept cs
    → (((new && is_none accepted) ≡ true) × (connect new accepted cs ≡ none))
      ⊎ ((cs' : List Client) × (connect new accepted cs ≡ some cs') × All Kept cs')
connect-Kept false accepted cs a = inr (cs, refl, a)
connect-Kept true none cs a = inl (refl, refl)
connect-Kept true (some fd) cs a =
    let c : Client = record { sock = some fd; must_delete = false } in
    inr (cs ++ (c ∷ []), refl, All-snoc Kept cs c a (λ e. refl))

serve-IsClean :
    (ev : Events) (s : Server) (cs : List Client)
    → All Kept cs
    → (s' : Server) × (serve ev s (some cs) ≡ some s') × IsClean s'
unfolding serve
serve-IsClean ev s cs a =
    let heard = receive ev 0 cs in
    let told = send_all ev 0 (s.pkt_queue ++ heard.1) heard.0 in
    let left = remove told.0 in
    (
      record s { pkt_queue = []; clients = left.0; log = s.log ++ (told.1 ++ left.1) },
      refl,
      record {
        queue = refl;
        connected =
            remove-Connected told.0
              (send_all-Kept ev 0 (s.pkt_queue ++ heard.1) heard.0 (receive-Kept ev 0 cs a));
      },
    )

faulty : (ev : Events) (s : Server) → serve ev s none ≡ none
unfolding serve
faulty ev s = refl

pub run-serve :
    (ev : Events) (s : Server)
    → s.ready ≡ true
    → ev.some_ready ≡ true
    → run ev s
      ≡ serve ev
          (record s { clients = register s.clients })
          (connect (set_for ev.is_set s.sock) ev.accepted (register s.clients))
unfolding run
run-serve ev s on some_fd = ground (arith, on, some_fd)

run-quiet :
    (ev : Events) (s : Server)
    → s.ready ≡ true
    → ev.some_ready ≡ false
    → run ev s ≡ some (record s { clients = register s.clients })
unfolding run
run-quiet ev s on quiet = ground (arith, on, quiet)

run-off : (ev : Events) (s : Server) → s.ready ≡ false → run ev s ≡ some s
unfolding run
run-off ev s off = ground (arith, off)

-- whether `accept` is called in this run, and fails
abbrev pub accept_fails : Events → Server → Bool
accept_fails ev s = s.ready && (ev.some_ready && (set_for ev.is_set s.sock && is_none ev.accepted))

-- From a state with an empty queue in which every client has a socket, `run` comes to such a state
-- again, unless `accept` is called and fails: then it uses a client that it has deleted.
pub run-IsClean :
    (ev : Events) (s : Server)
    → IsClean s
    → ((accept_fails ev s ≡ true) × (run ev s ≡ none))
      ⊎ ((s' : Server) × (run ev s ≡ some s') × IsClean s')
run-IsClean ev s c = elim (Bool-cases s.ready) [
  | inr off ↦ inr (s, run-off ev s off, c)
  | inl on ↦ elim (Bool-cases ev.some_ready) [
    | inr quiet ↦ inr (
      record s { clients = register s.clients },
      run-quiet ev s on quiet,
      record {
        queue = c.queue;
        connected = rw (register-Connected s.clients c.connected) c.connected;
      },
    )
    | inl some_fd ↦
        let kept : All Kept (register s.clients) =
          rw (register-Connected s.clients c.connected) (Connected-Kept s.clients c.connected) in
        let s' = record s { clients = register s.clients } in
        elim (connect-Kept (set_for ev.is_set s.sock) ev.accepted (register s.clients) kept) [
          | inl (f, e) ↦
              inl (
                rw (on, some_fd) f,
                run-serve ev s on some_fd ∙ (ap (serve ev s') e ∙ faulty ev s'),
              )
          | inr (cs, e, k) ↦
              let v = serve-IsClean ev s' cs k in
              inr (v.0, run-serve ev s on some_fd ∙ (ap (serve ev s') e ∙ v.1), v.2)
        ]
  ]
]
