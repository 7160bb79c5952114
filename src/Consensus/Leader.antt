-- ===== src/Consensus/Leader.antt =====
-- internal/consensus/leader.go and leader_tracker.go: the rotation of leaders and the failover
-- clock. Epochs are uint64. An index `-1` is `none`. Durations that are not positive are 0.
pub mod Rotation
pub mod Failover
use subnet.Prelude.{
  ℕ, ◌+◌, ◌-◌, ◌%◌, Bool, false, Option, none, some, leb, ◌==◌, nat_eq, if◌then◌else◌, length,
  get_elem?,
}
use subnet.Validators.{Validator, ValidatorSet}
use subnet.Consensus.{Time}

unfoldable pub select_leader : ℕ → ValidatorSet → Option ℕ
select_leader epoch vs = let n = length vs.validators in if n == 0 then none else some (epoch % n)

unfoldable pub select_backup : ℕ → ValidatorSet → Option ℕ
unfolding select_leader
select_backup epoch vs =
    let n = length vs.validators in
    if n == 0
    then none
    else elim (select_leader epoch vs) [ none ↦ none | some leader ↦ some ((leader + 1) % n) ]

pub record Tracker : Type 0 where
  pub set : ValidatorSet
  pub timeout : ℕ
  pub epoch : ℕ
  pub last_beat : Time

unfoldable pub new_tracker : ValidatorSet → ℕ → Tracker
new_tracker set timeout = record { set = set; timeout = timeout; epoch = 0; last_beat = none }

unfoldable set_timeout : Tracker → ℕ → Tracker
set_timeout lt timeout = record lt { timeout = timeout }

-- Another epoch than the tracked one starts without a heartbeat.
unfoldable pub move_to_epoch : Tracker → ℕ → Tracker
move_to_epoch lt epoch =
    if epoch == lt.epoch then lt else record lt { epoch = epoch; last_beat = none }

abbrev validator_at : Tracker → Option ℕ → Option ℕ × Option Validator
validator_at lt none = (none, none)
validator_at lt (some idx) = (some idx, get_elem? lt.set.validators idx)

-- The new tracker, with the index and the validator that the call returns.
unfoldable pub leader : Tracker → ℕ → Tracker × Option ℕ × Option Validator
leader lt epoch =
    let (idx, v) = validator_at lt (select_leader epoch lt.set) in (move_to_epoch lt epoch, idx, v)

unfoldable pub backup : Tracker → ℕ → Tracker × Option ℕ × Option Validator
backup lt epoch =
    let (idx, v) = validator_at lt (select_backup epoch lt.set) in (move_to_epoch lt epoch, idx, v)

unfoldable pub record_activity : Tracker → ℕ → ℕ → Tracker
record_activity lt epoch ts = record lt { epoch = epoch; last_beat = some ts }

abbrev silent_for : Time → ℕ → ℕ → Bool
silent_for none now timeout = false
silent_for (some beat) now timeout = leb timeout (now - beat)

unfoldable pub should_failover : Tracker → ℕ → ℕ → Tracker × Bool
should_failover lt epoch now =
    if lt.timeout == 0
    then (lt, false)
    else if epoch == lt.epoch
    then (lt, silent_for lt.last_beat now lt.timeout)
    else (record lt { epoch = epoch; last_beat = none }, false)

unfoldable update_set : Tracker → ValidatorSet → Tracker
update_set lt set = record lt { set = set; last_beat = none }
