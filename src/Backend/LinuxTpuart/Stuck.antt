-- ===== src/Backend/LinuxTpuart/Stuck.antt =====
-- A byte that the loop of `_process_packet` does not know stays at the front of the ring.
use lib_smoke.Base.{ℕ, zero, suc, ◌≡◌, arith, List, ◌∷◌, none}
use lib_smoke.Ring.Bounds
use lib_smoke.Ring.Refine.{contents}
use lib_smoke.Ring.Client.{peek-some, size-length}
use lib_smoke.Telegram.{Telegram}
use lib_smoke.Backend.LinuxTpuart.{unknown, opcode, Rx, rounds}

-- If the first byte in a valid ring is none that `_process_packet` knows, then its loop does not end,
-- however many rounds it is given.
pub rounds-unknown :
    (fuel id : ℕ) (junk : Telegram) (b : ℕ) (q : List ℕ) (s : Rx)
    → Bounds.IsValid s.buffer
    → contents s.buffer ≡ b ∷ q
    → opcode b ≡ unknown
    → rounds fuel id junk s ≡ none
unfolding rounds
rounds-unknown zero id junk b q s v e o = ground (arith, size-length s.buffer, e)
rounds-unknown (suc fuel) id junk b q s v e o = ground (
  arith,
  o,
  size-length s.buffer,
  e,
  peek-some (b ∷ q) 1 v e (omega arith),
  rounds-unknown fuel id junk b q s v e o,
)
