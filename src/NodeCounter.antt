-- ===== src/NodeCounter.antt =====
-- Project/libsmoke/libs/sknx/src/shared/knx/nodecounter/counter.h: the status of a node counter, and
-- what SKNX calls of one. The packets that a counter reads and writes are those of the wrapper that
-- it holds a reference to, so an operation takes the wrapper and returns it.
pub mod NodeSet
pub mod Dummy
mod Tests
use lib_smoke.Base.{ℕ, List, Bool}
use lib_smoke.PktWrapper.{PktWrapper}

-- `NodeCounterStatus`
pub data CounterStatus : Type 0 where
  counter_offline counter_counting counter_completed : CounterStatus

-- The class `NodeCounter`.
pub record NodeCounter (C : Type 0) : Type 0 where
  pub init : C → Bool × C
  pub shutdown : C → C
  pub update : C → PktWrapper → Bool × C × PktWrapper
  pub status : C → CounterStatus
  pub nodes : C → List ℕ
