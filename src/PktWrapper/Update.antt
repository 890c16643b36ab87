-- ===== src/PktWrapper/Update.antt =====
-- `PKTWrapper::update` of Project/libsmoke/libs/sknx/src/shared/knx/pktwrapper.h, for any backend.
use lib_smoke.Base.{ℕ, zero, suc, List, [], ◌∷◌, Option, none, some, ◌||◌, ◌==◌, if◌then◌else◌}
use lib_smoke.Telegram.{Telegram, broadcast, dest, new}
use lib_smoke.Backend.{Backend}
use lib_smoke.PktWrapper.{PktWrapper, recompose}

module _ {S : Type 0} (b : Backend S) where
  -- the loop that sends all telegrams
  unfoldable pub send_all : S → List Telegram → S
  send_all s [] = s
  send_all s (t ∷ ts) = send_all (b.broadcast s t) ts

  -- The loop that takes in telegrams while the backend counts some; `none` if it has not ended
  -- after `fuel` rounds.
  unfoldable pub recv_all : ℕ → ℕ → Telegram → S → PktWrapper → Option (S × PktWrapper)
  recv_all zero id junk s w = if b.count s == 0 then some (s, w) else none
  recv_all (suc fuel) id junk s w =
      let (t, s') = b.read s (new id junk) in
      let w' = if (dest t == broadcast) || (dest t == id) then recompose id w t else w in
      let rest = recv_all fuel id junk s' w' in if b.count s == 0 then some (s, w) else rest

  unfoldable pub update : ℕ → ℕ → Telegram → S → PktWrapper → Option (S × PktWrapper)
  update fuel id junk s w =
      let s' = send_all (b.update s) w.out_queue in
      recv_all fuel id junk s' (record w { out_queue = [] })
