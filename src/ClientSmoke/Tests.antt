-- ===== src/ClientSmoke/Tests.antt =====
-- A client over a silent bus whose counter and key exchange complete after one update.
use lib_smoke.Base.{ℕ, ◌≡◌, refl, [], some, true, false, replicate}
use lib_smoke.Telegram.{Telegram}
use lib_smoke.Backend.{Backend}
use lib_smoke.PktWrapper
use lib_smoke.PktWrapper.{PktWrapper}
use lib_smoke.PktWrapper.Update
use lib_smoke.NodeCounter.{
  NodeCounter, CounterStatus, counter_offline, counter_counting, counter_completed,
}
use lib_smoke.KeyExchange.{KeyExchange, KeyStatus, key_offline, key_running, key_completed}
use lib_smoke.Sknx
use lib_smoke.ClientSmoke.{ClientSmoke, agree, start, init_with, init}
use lib_smoke.ClientSmoke.Init.{init-completed}

abbrev blank : Telegram
blank = record {
  hdr_ctrl = 0;
  hdr_src = 0;
  hdr_dest = 0;
  hdr_size = 0;
  hdr_routing = 0;
  hdr_group = 0;
  body = replicate 16 0;
}

abbrev silent : Backend ℕ
silent = record {
  update = λ s. s;
  broadcast = λ s t. s;
  count = λ s. 0;
  read = λ s t. (t, s);
  must_update = λ s. false;
}

abbrev quick_counter : NodeCounter CounterStatus
quick_counter = record {
  init = λ c. (true, counter_counting);
  shutdown = λ c. counter_offline;
  update = λ c w. (true, counter_completed, w);
  status = λ c. c;
  nodes = λ c. [];
}

abbrev quick_key : KeyExchange KeyStatus
quick_key = record {
  init = λ nodes k w. (true, key_running, w);
  shutdown = λ k. key_offline;
  update = λ k w. (true, key_completed, w);
  status = λ k. k;
}

abbrev client : ClientSmoke ℕ KeyStatus
client = record { pktwrapper = PktWrapper.create 2; key = key_offline; backend = 0 }

abbrev keyed : ClientSmoke ℕ KeyStatus
keyed = record client { key = key_completed }

ran :
    init silent quick_counter quick_key
      (λ b. (true, b))
      (λ old k. k)
      (λ k buf. buf)
      1
      blank
      5
      0
      2
      counter_offline
      key_offline
      client
    ≡ some (true, keyed)
unfolding init init_with start agree Sknx.init Sknx.init_at Sknx.update Sknx.switch
    Sknx.switch_after Sknx.update_counter Sknx.update_handshaking Sknx.get_key Update.update
    Update.send_all Update.recv_all PktWrapper.create
ran = refl

init-completed_example : (k : KeyStatus) × (k ≡ key_completed) × (keyed.key ≡ k)
init-completed_example =
    init-completed silent quick_counter quick_key (λ b. (true, b)) (λ old k. k) (λ k buf. buf) 1
      blank 5 0 2 counter_offline key_offline client keyed ran
