-- ===== src/PowerManager.antt =====
-- src/system/common/power-manager/power-manager.ts
pub mod Ticker
pub mod Lifecycle
use redis_smq.Prelude.{Bool, true, false, not, ◌&&◌, Option, none, some}
use redis_smq.Errors.{Result, ok, err, power_manager_error}

-- `TStates`; UP is 0 and DOWN is 1.
pub data PowerState : Type 0 where
  up down : PowerState

pub record PowerManager : Type 0 where
  pub state : PowerState
  pub pending_state : Option PowerState

abbrev pub new_power_manager : PowerManager
new_power_manager = record { state = down; pending_state = none }

abbrev pub same_state : PowerState → PowerState → Bool
same_state up up = true
same_state down down = true
same_state _ _ = false

abbrev pub is_pending : PowerState → Option PowerState → Bool
is_pending s none = false
is_pending s (some t) = same_state s t

-- `!this.pendingState`: UP is the number 0, so a pending UP counts as none.
abbrev is_falsy : Option PowerState → Bool
is_falsy none = true
is_falsy (some up) = true
is_falsy (some down) = false

unfoldable pub is_up : PowerManager → Bool
is_up p = same_state p.state up

unfoldable pub is_down : PowerManager → Bool
is_down p = same_state p.state down

unfoldable pub is_going_up : PowerManager → Bool
is_going_up p = is_pending up p.pending_state

unfoldable pub is_going_down : PowerManager → Bool
is_going_down p = is_pending down p.pending_state

unfoldable pub is_running : PowerManager → Bool
unfolding is_up
is_running p = is_up p && is_falsy p.pending_state

abbrev switch_from : Option PowerState → PowerState → PowerManager → Result PowerManager
switch_from (some t) s p = err power_manager_error
switch_from none s p = elim (same_state s p.state) [
  | true ↦ err power_manager_error
  | false ↦ ok (record p { pending_state = some s })
]

-- The protected `switchState`.
unfoldable pub switch_state : PowerState → PowerManager → Result PowerManager
switch_state s p = switch_from p.pending_state s p

unfoldable pub going_up : PowerManager → Result PowerManager
unfolding switch_state
going_up p = switch_state up p

unfoldable pub going_down : PowerManager → Result PowerManager
unfolding switch_state
going_down p = switch_state down p

unfoldable pub commit : PowerManager → Result PowerManager
commit p = elim p.pending_state [
  | none ↦ err power_manager_error
  | some s ↦ ok (record { state = s; pending_state = none })
]

unfoldable pub rollback : PowerManager → Result PowerManager
rollback p = elim p.pending_state [
  | none ↦ err power_manager_error
  | some s ↦ ok (record p { pending_state = none })
]
