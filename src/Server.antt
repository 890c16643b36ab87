-- ===== src/Server.antt =====
-- Project/libsmoke/src/libsmoke_server.h: a server that passes on to every client what any of them
-- sends. What the system calls of one `run` return is its argument, what they are asked to do goes to
-- a log.
pub mod Run
pub mod Broadcast
mod Tests
use lib_smoke.Base.{
  ℕ, zero, suc, List, [], ◌∷◌, ◌++◌, Option, none, some, Bool, true, false, not, ◌||◌, ltb,
  if◌then◌else◌, length,
}
use lib_smoke.Backend.{
  Recv, recv_failed, recv_bytes, Sent, send_failed, sent_bytes, Effect, closes, sends,
}

-- `sock` is `none` for -1.
pub record Client : Type 0 where
  pub sock : Option ℕ
  pub must_delete : Bool

pub record Server : Type 0 where
  pub pkt_queue : List (List ℕ)
  pub clients : List Client
  pub sock : Option ℕ
  pub ready : Bool
  pub log : List Effect

-- What the calls of one `run` return: whether `select` finds a descriptor, which ones, the result of
-- `accept`, that of `recv` for the client at each index, and that of `send` for each packet and index.
pub record Events : Type 0 where
  pub some_ready : Bool
  pub is_set : ℕ → Bool
  pub accepted : Option ℕ
  pub recv : ℕ → Recv
  pub sent : ℕ → ℕ → Sent

-- the constructor, which leaves `_sock` as it is
abbrev pub create : Option ℕ → Server
create junk = record { pkt_queue = []; clients = []; sock = junk; ready = false; log = [] }

-- `opened` is what `socket` returns; `bound` and `listening` are whether `bind` and `listen` succeed.
unfoldable pub init : Option ℕ → Bool → Bool → Server → Bool × Server
init none bound listening s =
    if s.ready then (false, s) else (false, record s { sock = none; ready = false })
init (some fd) bound listening s =
    if s.ready
    then (false, s)
    else if not bound || not listening
    then (false, record s { sock = some fd; ready = false; log = s.log ++ (closes (some fd) ∷ []) })
    else (true, record s { sock = some fd; ready = true })

abbrev pub is_none : Option ℕ → Bool
is_none none = true
is_none (some fd) = false

abbrev pub mark : Client → Client
mark c = record c { must_delete = true }

-- the loop that registers the sockets
unfoldable pub register : List Client → List Client
register [] = []
register (c ∷ cs) = (if is_none c.sock then mark c else c) ∷ register cs

abbrev pub set_for : (ℕ → Bool) → Option ℕ → Bool
set_for is_set none = false
set_for is_set (some fd) = is_set fd

-- The clients after a new connection was handled; `none` if `accept` fails, since then the client is
-- deleted and used.
abbrev pub connect : Bool → Option ℕ → List Client → Option (List Client)
connect false accepted cs = some cs
connect true none cs = none
connect true (some fd) cs = some (cs ++ (record { sock = some fd; must_delete = false } ∷ []))

-- what is made of the result of one `recv`
abbrev pub take_in : Recv → Client → Client × List (List ℕ)
take_in recv_failed c = (mark c, [])
take_in (recv_bytes []) c = (mark c, [])
take_in (recv_bytes (b ∷ bs)) c = (c, (b ∷ bs) ∷ [])

-- the loop over the clients from index `i` on, and the packets that it pushes
unfoldable pub receive : Events → ℕ → List Client → List Client × List (List ℕ)
receive ev i [] = ([], [])
receive ev i (c ∷ cs) =
    let (cs', rest) = receive ev (suc i) cs in
    let (c', packets) = take_in (ev.recv i) c in
    if c.must_delete || not (set_for ev.is_set c.sock)
    then (c ∷ cs', rest)
    else (c' ∷ cs', packets ++ rest)

-- `send(...) < size`
abbrev pub too_short : Sent → ℕ → Bool
too_short send_failed size = true
too_short (sent_bytes n) size = ltb n size

-- packet `k` to the clients from index `i` on, and what is logged
unfoldable pub send_round : Events → ℕ → ℕ → List ℕ → List Client → List Client × List Effect
send_round ev k i packet [] = ([], [])
send_round ev k i packet (c ∷ cs) =
    let (cs', log) = send_round ev k (suc i) packet cs in
    if c.must_delete then (c ∷ cs', log) else (
      (if too_short (ev.sent k i) (length packet) then mark c else c) ∷ cs',
      sends c.sock packet ∷ log,
    )

-- the loop over the queue, from packet `k` on
unfoldable pub send_all : Events → ℕ → List (List ℕ) → List Client → List Client × List Effect
send_all ev k [] cs = (cs, [])
send_all ev k (packet ∷ packets) cs =
    let (cs', log) = send_round ev k 0 packet cs in
    let (cs'', rest) = send_all ev (suc k) packets cs' in (cs'', log ++ rest)

-- `if(c->sock > 0) close(c->sock)`
abbrev pub closing : Option ℕ → List Effect
closing none = []
closing (some fd) = if ltb 0 fd then closes (some fd) ∷ [] else []

-- the loop that removes disconnected clients
unfoldable pub remove : List Client → List Client × List Effect
remove [] = ([], [])
remove (c ∷ cs) =
    let (cs', log) = remove cs in
    if c.must_delete then (cs', closing c.sock ++ log) else (c ∷ cs', log)

-- `run` once the new connection was handled
unfoldable pub serve : Events → Server → Option (List Client) → Option Server
serve ev s none = none
serve ev s (some connected) =
    let (heard, packets) = receive ev 0 connected in
    let (told, sent_log) = send_all ev 0 (s.pkt_queue ++ packets) heard in
    let (left, closed_log) = remove told in
    some (record s { pkt_queue = []; clients = left; log = s.log ++ (sent_log ++ closed_log) })

-- `none` is undefined behaviour.
unfoldable pub run : Events → Server → Option Server
unfolding serve
run ev s =
    let registered = register s.clients in
    let s' = record s { clients = registered } in
    if not s.ready
    then some s
    else if not ev.some_ready
    then some s'
    else serve ev s' (connect (set_for ev.is_set s.sock) ev.accepted registered)

-- what `shutdown` closes
unfoldable pub close_all : List Client → List Effect
close_all [] = []
close_all (c ∷ cs) = closes c.sock ∷ close_all cs

unfoldable pub shutdown : Server → Server
unfolding close_all
shutdown s = record s {
  ready = false;
  clients = [];
  log = s.log ++ (closes s.sock ∷ close_all s.clients);
}
