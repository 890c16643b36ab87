-- ===== src/Server/Broadcast.antt =====
-- What the clients are sent in a run in which every `send` takes all that it is given.
use lib_smoke.Base.{
  ℕ, suc, refl, arith, ◌≡◌, ap, ap₂, subst, ◌∙◌, List, [], ◌∷◌, ◌++◌, Option, none, some, Bool,
  true, false, ◌&&◌, if◌then◌else◌, All, length,
}
use lib_smoke.Backend.{Recv, recv_failed, recv_bytes, Effect, sends}
use lib_smoke.Server.{
  Client, Server, Events, set_for, connect, take_in, receive, too_short, send_round, send_all,
  closing, remove, serve, run,
}
use lib_smoke.Server.Run.{Connected, IsClean, All-snoc, register-Connected, run-serve}

-- whether a connection is closed or broken
abbrev pub hung_up : Recv → Bool
hung_up recv_failed = true
hung_up (recv_bytes []) = true
hung_up (recv_bytes (b ∷ bs)) = false

-- what a client that can be read says
abbrev pub said : Recv → List (List ℕ)
said recv_failed = []
said (recv_bytes []) = []
said (recv_bytes (b ∷ bs)) = (b ∷ bs) ∷ []

module _ (ev : Events) where
  -- the packets of all readable clients from index `i` on, in their order
  abbrev pub messages : ℕ → List Client → List (List ℕ)
  messages i [] = []
  messages i (c ∷ cs) =
      (if set_for ev.is_set c.sock then said (ev.recv i) else []) ++ messages (suc i) cs

  abbrev pub leaves : ℕ → Client → Bool
  leaves i c = set_for ev.is_set c.sock && hung_up (ev.recv i)

  -- the clients that have not hung up
  abbrev pub staying : ℕ → List Client → List Client
  staying i [] = []
  staying i (c ∷ cs) = let rest = staying (suc i) cs in if leaves i c then rest else c ∷ rest

  -- the sockets of those that have are closed
  abbrev pub hangups : ℕ → List Client → List Effect
  hangups i [] = []
  hangups i (c ∷ cs) =
      let rest = hangups (suc i) cs in if leaves i c then closing c.sock ++ rest else rest

-- one packet to each client
abbrev pub to_all : List ℕ → List Client → List Effect
to_all packet [] = []
to_all packet (c ∷ cs) = sends c.sock packet ∷ to_all packet cs

-- each packet in turn
abbrev pub broadcast : List (List ℕ) → List Client → List Effect
broadcast [] cs = []
broadcast (packet ∷ packets) cs = to_all packet cs ++ broadcast packets cs

-- no `send` of these packets falls short
abbrev pub Sending : Events → ℕ → List (List ℕ) → Type 0
Sending ev k [] = Unit {0}
Sending ev k (packet ∷ packets) =
    ((i : ℕ) → too_short (ev.sent k i) (length packet) ≡ false) × Sending ev (suc k) packets

-- the clients that are to stay
abbrev active : List Client → List Client
active [] = []
active (c ∷ cs) = let rest = active cs in if c.must_delete then rest else c ∷ rest

send_round-to_all :
    (ev : Events) (k i : ℕ) (packet : List ℕ) (cs : List Client)
    → ((i : ℕ) → too_short (ev.sent k i) (length packet) ≡ false)
    → send_round ev k i packet cs ≡ (cs, to_all packet (active cs))
unfolding send_round
send_round-to_all ev k i packet [] h = refl
send_round-to_all ev k i packet (c ∷ cs) h =
    ground (arith, h i, send_round-to_all ev k (suc i) packet cs h)

send_all-broadcast :
    (ev : Events) (k : ℕ) (packets : List (List ℕ)) (cs : List Client)
    → Sending ev k packets
    → send_all ev k packets cs ≡ (cs, broadcast packets (active cs))
unfolding send_all
send_all-broadcast ev k [] cs h = refl
send_all-broadcast ev k (packet ∷ packets) cs h =
    rw (send_round-to_all ev k 0 packet cs h.0, send_all-broadcast ev (suc k) packets cs h.1) refl

module _ (ev : Events) where
  -- the three outcomes of a `recv` for a client that is to stay
  take_in-hung_up :
      (r : Recv) (c : Client)
      → c.must_delete ≡ false
      → ((take_in r c).1 ≡ said r)
        × ((take_in r c).0.must_delete ≡ hung_up r)
        × ((take_in r c).0.sock ≡ c.sock)
  take_in-hung_up recv_failed c h = (refl, refl, refl)
  take_in-hung_up (recv_bytes []) c h = (refl, refl, refl)
  take_in-hung_up (recv_bytes (b ∷ bs)) c h = (refl, h, refl)

  receive-messages :
      (i : ℕ) (cs : List Client) → All Connected cs → (receive ev i cs).1 ≡ messages ev i cs
  unfolding receive
  receive-messages i [] a = refl
  receive-messages i (c ∷ cs) a =
      ground (arith, a.0, take_in-hung_up (ev.recv i) c a.0.0, receive-messages (suc i) cs a.1)

  take_in-same : (r : Recv) (c : Client) → hung_up r ≡ false → (take_in r c).0 ≡ c
  take_in-same recv_failed c h = absurd (cc h)
  take_in-same (recv_bytes []) c h = absurd (cc h)
  take_in-same (recv_bytes (b ∷ bs)) c h = refl

  remove-receive :
      (i : ℕ) (cs : List Client)
      → All Connected cs
      → remove (receive ev i cs).0 ≡ (staying ev i cs, hangups ev i cs)
  unfolding receive remove
  remove-receive i [] a = refl
  remove-receive i (c ∷ cs) a = ground (
    arith,
    a.0,
    take_in-hung_up (ev.recv i) c a.0.0,
    take_in-same (ev.recv i) c,
    remove-receive (suc i) cs a.1,
  )

  active-receive :
      (i : ℕ) (cs : List Client) → All Connected cs → active (receive ev i cs).0 ≡ staying ev i cs
  unfolding receive
  active-receive i [] a = refl
  active-receive i (c ∷ cs) a = ground (
    arith,
    a.0,
    take_in-hung_up (ev.recv i) c a.0.0,
    take_in-same (ev.recv i) c,
    active-receive (suc i) cs a.1,
  )

connect-Connected :
    (new : Bool) (accepted : Option ℕ) (cs cs' : List Client)
    → All Connected cs
    → connect new accepted cs ≡ some cs'
    → All Connected cs'
connect-Connected false accepted cs cs' a e = subst (All Connected) (cc e) a
connect-Connected true none cs cs' a e = absurd (cc e)
connect-Connected true (some fd) cs cs' a e =
    subst (All Connected) (cc e)
      (All-snoc Connected cs (record { sock = some fd; must_delete = false }) a (refl, refl))

-- the queue of a clean state and what is heard
send_all-heard :
    (ev : Events) (queue : List (List ℕ)) (cs : List Client)
    → queue ≡ []
    → All Connected cs
    → Sending ev 0 (messages ev 0 cs)
    → send_all ev 0 (queue ++ (receive ev 0 cs).1) (receive ev 0 cs).0
      ≡ ((receive ev 0 cs).0, broadcast (messages ev 0 cs) (staying ev 0 cs))
send_all-heard ev queue cs q a h =
    ap₂ (λ l m. send_all ev 0 (l ++ m) (receive ev 0 cs).0) q (receive-messages ev 0 cs a)
    ∙ (send_all-broadcast ev 0 (messages ev 0 cs) (receive ev 0 cs).0 h
        ∙ ap (λ l. ((receive ev 0 cs).0, broadcast (messages ev 0 cs) l))
            (active-receive ev 0 cs a))

serve-broadcast :
    (ev : Events) (s : Server) (cs : List Client)
    → s.pkt_queue ≡ []
    → All Connected cs
    → Sending ev 0 (messages ev 0 cs)
    → serve ev s (some cs)
      ≡ some (record s {
        clients = staying ev 0 cs;
        log = s.log ++ (broadcast (messages ev 0 cs) (staying ev 0 cs) ++ hangups ev 0 cs);
      })
unfolding serve
serve-broadcast ev s cs q a h =
    ground (arith, q, send_all-heard ev s.pkt_queue cs q a h, remove-receive ev 0 cs a)

-- From a clean state of a server that is ready, in a run in which some descriptor is ready, no call of
-- `accept` fails and no `send` falls short: each packet that a client said is sent once to each client
-- that has not hung up, the new one and the speaker included, packet after packet in the clients'
-- order; the sockets of those that have hung up are closed, and they alone are removed.
pub run-broadcast :
    (ev : Events) (s : Server) (cs : List Client)
    → IsClean s
    → s.ready ≡ true
    → ev.some_ready ≡ true
    → connect (set_for ev.is_set s.sock) ev.accepted s.clients ≡ some cs
    → Sending ev 0 (messages ev 0 cs)
    → run ev s
      ≡ some (record s {
        clients = staying ev 0 cs;
        log = s.log ++ (broadcast (messages ev 0 cs) (staying ev 0 cs) ++ hangups ev 0 cs);
      })
run-broadcast ev s cs c on some_fd e h =
    let a : All Connected cs =
      connect-Connected (set_for ev.is_set s.sock) ev.accepted s.clients cs c.connected e in
    let r = register-Connected s.clients c.connected in
    run-serve ev s on some_fd
    ∙ (ap
          (λ l.
            serve ev (record s { clients = l }) (connect (set_for ev.is_set s.sock) ev.accepted l))
          r
        ∙ (ap (serve ev s) e ∙ serve-broadcast ev s cs c.queue a h))
