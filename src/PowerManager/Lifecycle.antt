-- ===== src/PowerManager/Lifecycle.antt =====
-- The life cycle of src/system/common/power-manager/power-manager.ts and of the ticker over it.
use redis_smq.Prelude.{
  ℕ, zero, suc, Option, some, ◌∙◌, false, none, List, [], ◌∷◌, ◌≡◌, refl, arith,
}
use redis_smq.Errors.{Result, ok, err}
use redis_smq.PowerManager.{
  PowerState, up, down, PowerManager, new_power_manager, switch_state, going_up, going_down, commit,
  rollback, is_pending, same_state,
}
use redis_smq.PowerManager.Ticker.{Ticker, quit, next_tick, next_tick_with, run_timer, fire}

-- A state change is never pending towards the state that holds.
abbrev pub IsCoherent : PowerManager → Type 0
IsCoherent p = is_pending p.state p.pending_state ≡ false

pub data Power : Type 0 where
  go_up go_down commit_it roll_back : Power

unfoldable pub power : Power → PowerManager → Result PowerManager
unfolding going_up going_down commit rollback
power go_up p = going_up p
power go_down p = going_down p
power commit_it p = commit p
power roll_back p = rollback p

abbrev or_same : PowerManager → Result PowerManager → PowerManager
or_same p (ok p') = p'
or_same p (err e) = p

unfoldable pub powers : List Power → PowerManager → PowerManager
powers [] p = p
powers (c ∷ cs) p = powers cs (or_same p (power c p))

power-IsCoherent :
    (c : Power) (p : PowerManager) → IsCoherent p → IsCoherent (or_same p (power c p))
unfolding power
power-IsCoherent go_up p h = ground arith
power-IsCoherent _ p h = ground arith

powers-IsCoherent : (cs : List Power) (p : PowerManager) → IsCoherent p → IsCoherent (powers cs p)
unfolding powers
powers-IsCoherent [] p h = h
powers-IsCoherent (c ∷ cs) p h =
    powers-IsCoherent cs (or_same p (power c p)) (power-IsCoherent c p h)

-- How many of the calls are commits that are accepted.
abbrev count_commit : Power → Result PowerManager → ℕ → ℕ
count_commit commit_it (ok p) n = suc n
count_commit _ _ n = n

unfoldable pub commits : List Power → PowerManager → ℕ
unfolding power
commits [] p = 0
commits (c ∷ cs) p = count_commit c (power c p) (commits cs (or_same p (power c p)))

-- The state after some changes of state.
abbrev pub toggled : PowerState → ℕ → PowerState
toggled s zero = s
toggled up (suc n) = toggled down n
toggled down (suc n) = toggled up n

toggled-power :
    (c : Power) (s : PowerState) (o : Option PowerState) (n : ℕ)
    → IsCoherent (record { state = s; pending_state = o })
    → toggled
        (or_same
          (record { state = s; pending_state = o })
          (power c (record { state = s; pending_state = o }))).state
        n
      ≡ toggled s (count_commit c (power c (record { state = s; pending_state = o })) n)
unfolding power going_up going_down switch_state commit rollback
toggled-power go_up s none n h = ground arith
toggled-power go_up s (some t) n h = refl
toggled-power go_down s none n h = ground arith
toggled-power go_down s (some t) n h = refl
toggled-power commit_it s none n h = refl
toggled-power commit_it up (some up) n h = absurd (cc h)
toggled-power commit_it up (some down) n h = refl
toggled-power commit_it down (some up) n h = refl
toggled-power commit_it down (some down) n h = absurd (cc h)
toggled-power roll_back s none n h = refl
toggled-power roll_back s (some t) n h = refl

powers-toggled :
    (cs : List Power) (p : PowerManager)
    → IsCoherent p
    → (powers cs p).state ≡ toggled p.state (commits cs p)
unfolding powers commits
powers-toggled [] p h = refl
powers-toggled (c ∷ cs) p h =
    powers-toggled cs (or_same p (power c p)) (power-IsCoherent c p h)
    ∙ toggled-power c p.state p.pending_state (commits cs (or_same p (power c p))) h

-- After any calls on a new power manager, those that throw included: each commit that was accepted
-- has changed the state, nothing else has, so that the state is DOWN and UP in turns, with the
-- number of these commits; and no change is pending towards the state that holds.
pub powers-alternate :
    (cs : List Power)
    → ((powers cs new_power_manager).state ≡ toggled down (commits cs new_power_manager))
      × IsCoherent (powers cs new_power_manager)
powers-alternate cs =
    (powers-toggled cs new_power_manager refl, powers-IsCoherent cs new_power_manager refl)

-- An accepted switch: no change was pending and the state is another one; the state stays until the
-- commit, which makes the new state hold, and a rollback gives back what was before.
pub switch_state_ok :
    (s : PowerState) (p : PowerManager) {p' : PowerManager}
    → switch_state s p ≡ ok p'
    → (p.pending_state ≡ none)
      × (same_state s p.state ≡ false)
      × (p'.state ≡ p.state)
      × (commit p' ≡ ok (record { state = s; pending_state = none }))
      × (rollback p' ≡ ok p)
unfolding switch_state commit rollback
switch_state_ok s p h = ground arith

-- What happens to a ticker: its owner's calls, and the firing of its timer.
pub data TickerCall : Type 0 where
  call_quit call_next_tick call_run_timer timer_fires : TickerCall
  call_next_tick_with : ℕ → TickerCall

abbrev after : Ticker → Result Ticker → Ticker
after t (ok t') = t'
after t (err e) = t

unfoldable pub ticker_call : TickerCall → Ticker → Ticker
unfolding quit next_tick next_tick_with run_timer fire
ticker_call call_quit t = after t (quit t)
ticker_call call_next_tick t = after t (next_tick t)
ticker_call (call_next_tick_with f) t = after t (next_tick_with f t)
ticker_call call_run_timer t = after t (run_timer t)
ticker_call timer_fires t = (fire t).0

unfoldable pub ticker_calls : List TickerCall → Ticker → Ticker
ticker_calls [] t = t
ticker_calls (c ∷ cs) t = ticker_calls cs (ticker_call c t)

-- The ticker has been stopped: nothing is pending and it is down.
abbrev pub IsStopped : Ticker → Type 0
IsStopped t = (t.power_manager.state ≡ down) × (t.power_manager.pending_state ≡ none)

quit-IsStopped :
    (t : Ticker) {t' : Ticker} → IsCoherent t.power_manager → quit t ≡ ok t' → IsStopped t'
unfolding quit
quit-IsStopped t c h = ground arith

ticker_call-IsStopped : (c : TickerCall) (t : Ticker) → IsStopped t → IsStopped (ticker_call c t)
unfolding ticker_call
ticker_call-IsStopped call_quit t h = ground arith
ticker_call-IsStopped _ t h = ground arith

ticker_calls-IsStopped :
    (cs : List TickerCall) (t : Ticker) → IsStopped t → IsStopped (ticker_calls cs t)
unfolding ticker_calls
ticker_calls-IsStopped [] t h = h
ticker_calls-IsStopped (c ∷ cs) t h =
    ticker_calls-IsStopped cs (ticker_call c t) (ticker_call-IsStopped c t h)

stopped_silent : (t : Ticker) → IsStopped t → (fire t).1 ≡ none
unfolding fire
stopped_silent t h = ground arith

-- Once `quit` has returned on a ticker that is not switching to the state it is in, no timer that
-- still fires runs a function, whatever is called on the ticker after that.
pub fire-quit :
    (t : Ticker) {t' : Ticker} (cs : List TickerCall)
    → IsCoherent t.power_manager
    → quit t ≡ ok t'
    → (fire (ticker_calls cs t')).1 ≡ none
fire-quit t {t'} cs c h =
    stopped_silent (ticker_calls cs t') (ticker_calls-IsStopped cs t' (quit-IsStopped t c h))
