-- ===== src/Consensus.antt =====
-- The consensus package that both engines share: internal/consensus.
-- Times are nanoseconds; `time.Time{}` is `none`, which lies before every time.
pub mod Cometbft
pub mod Fsm
pub mod Leader
pub mod StateMachine
pub mod Merkle
pub mod Continuity
pub mod Chain
use subnet.Prelude.{ℕ, String, Bool, true, false, Option, none, some, ltb, nat_eq}

-- state.go
pub data State : Type 0 where
  idle collecting finalized : State

unfoldable state_name : State → String
state_name idle = "idle"
state_name collecting = "collecting"
state_name finalized = "finalized"

abbrev pub is_idle : State → Bool
is_idle idle = true
is_idle _ = false

abbrev pub is_collecting : State → Bool
is_collecting collecting = true
is_collecting _ = false

abbrev pub Time : Type 0
Time = Option ℕ

-- `now.After(deadline)`
abbrev pub is_after : ℕ → Time → Bool
is_after now none = true
is_after now (some deadline) = ltb deadline now
