-- ===== src/Server/Tests.antt =====
-- Two clients: the one at 5 says a byte, the one at 6 hangs up, and a third connects at 7.
use lib_smoke.Base.{ℕ, refl, ◌≡◌, ◌⊎◌, [], ◌∷◌, none, some, true, false, ◌||◌, ◌==◌, if◌then◌else◌}
use lib_smoke.Backend.{recv_bytes, sent_bytes, closes, sends}
use lib_smoke.Server.{Client, Server, Events, run}
use lib_smoke.Server.Run.{IsClean, accept_fails, run-IsClean}
use lib_smoke.Server.Broadcast.{run-broadcast}

abbrev client : ℕ → Client
client fd = record { sock = some fd; must_delete = false }

abbrev server : Server
server = record {
  pkt_queue = [];
  clients = client 5 ∷ client 6 ∷ [];
  sock = some 3;
  ready = true;
  log = [];
}

abbrev busy : Events
busy = record {
  some_ready = true;
  is_set = λ fd. (fd == 3) || ((fd == 5) || (fd == 6));
  accepted = some 7;
  recv = λ i. if i == 0 then recv_bytes (9 ∷ []) else recv_bytes [];
  sent = λ k i. sent_bytes 1;
}

server-IsClean : IsClean server
server-IsClean = record { queue = refl; connected = ((refl, refl), ((refl, refl), tt)) }

run-IsClean_example :
    ((accept_fails busy server ≡ true) × (run busy server ≡ none))
    ⊎ ((s' : Server) × (run busy server ≡ some s') × IsClean s')
run-IsClean_example = run-IsClean busy server server-IsClean

run-broadcast_example :
    run busy server
    ≡ some (record server {
      clients = client 5 ∷ client 7 ∷ [];
      log = sends (some 5) (9 ∷ []) ∷ sends (some 7) (9 ∷ []) ∷ closes (some 6) ∷ [];
    })
run-broadcast_example =
    run-broadcast busy server (client 5 ∷ client 6 ∷ client 7 ∷ []) server-IsClean refl refl refl
      ((λ i. refl), tt)
