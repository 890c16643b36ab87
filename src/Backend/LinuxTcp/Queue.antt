-- ===== src/Backend/LinuxTcp/Queue.antt =====
-- The queue of received telegrams behind the methods of the TCP backend.
use lib_smoke.Base.{◌≡◌, ◌≢◌, refl, arith, List, [], ◌∷◌, true, false, length}
use lib_smoke.Telegram.{Telegram}
use lib_smoke.Backend.LinuxTcp.{LinuxTcp, read, count}

pub read-front :
    (s : LinuxTcp) (old t : Telegram) (ts : List Telegram)
    → s.ready ≡ true
    → s.pkts ≡ t ∷ ts
    → read s old ≡ (true, t, record s { pkts = ts })
unfolding read
read-front s old t ts r e = ground arith

pub read-not_ready :
    (s : LinuxTcp) (old : Telegram) → s.ready ≡ false → read s old ≡ (false, old, s)
unfolding read
read-not_ready s old r = ground arith

pub count-length : (s : LinuxTcp) → count s ≡ length s.pkts
unfolding count
count-length s = refl

pub length-ne_zero : (ts : List Telegram) → ts ≢ [] → length ts ≢ 0
length-ne_zero [] ne e = ne refl
length-ne_zero (t ∷ ts) ne e = absurd (omega arith)
