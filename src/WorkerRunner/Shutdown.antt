-- ===== src/WorkerRunner/Shutdown.antt =====
-- src/system/common/worker-runner/worker-runner.ts: the shutdown comes to its end.
use redis_smq.Prelude.{
  Text, text_eq_refl, ℕ, zero, suc, ◌+◌, Option, none, some, List, [], ◌∷◌, ◌++◌, ◌≡◌, refl, ap,
  sym, ◌∙◌, arith, length, length-append, split_last-append, append_assoc, append-nil,
}
use redis_smq.Errors.{Result, ok, err}
use redis_smq.PowerManager.{
  PowerManager, up, down, is_running, is_up, is_going_up, going_down, switch_state, commit,
}
use redis_smq.WorkerRunner.{WorkerRunner, shutdown_fn, shutdown, on_exit}

-- The threads exit one after the other, in the order in which they were killed: first the one that is
-- awaited now, then each that is awaited after it.
abbrev pub exit_awaited : WorkerRunner → Option Text → Result WorkerRunner
exit_awaited r none = ok r
exit_awaited r (some worker) = on_exit worker r

unfoldable pub exits : ℕ → WorkerRunner → Result WorkerRunner
exits zero r = ok r
exits (suc n) r = elim (exit_awaited r r.awaited) [ err e ↦ err e | ok r' ↦ exits n r' ]

-- The threads, the last one first.
abbrev pub last_first : List Text → List Text
last_first [] = []
last_first (w ∷ ws) = last_first ws ++ w ∷ []

abbrev going_down_state : PowerManager
going_down_state = record { state = up; pending_state = some down }

-- In the middle of a shutdown.
abbrev waiting : List Text → Text → List Text → ℕ → WorkerRunner
waiting workers awaited killed n = record {
  power_manager = going_down_state;
  workers = workers;
  awaited = some awaited;
  killed = killed;
  callbacks = n;
}

abbrev ended : List Text → ℕ → WorkerRunner
ended killed n = record {
  power_manager = record { state = down; pending_state = none };
  workers = [];
  awaited = none;
  killed = killed;
  callbacks = n + 1;
}

-- `xs` in the order of popping: the workers are `last_first xs`.
exits_lem :
    (xs : List Text) (w : Text) (killed : List Text) (n : ℕ)
    → exits (suc (length xs)) (waiting (last_first xs) w killed n) ≡ ok (ended (killed ++ xs) n)
unfolding exits on_exit shutdown_fn is_going_up is_running is_up commit
exits_lem [] w killed n = rw (exits, text_eq_refl w) (rw (append-nil killed) refl)
exits_lem (x ∷ xs) w killed n =
    rw (exits, text_eq_refl w)
      (rw (split_last-append (last_first xs) x) (
        exits_lem xs x (killed ++ x ∷ []) n
        ∙ ap (λ t. ok (ended t n)) (append_assoc killed (x ∷ []) xs)))

last_first-append : (xs : List Text) (w : Text) → last_first (xs ++ w ∷ []) ≡ w ∷ last_first xs
last_first-append [] w = refl
last_first-append (x ∷ xs) w = rw (last_first-append xs w) refl

last_first_twice : (ws : List Text) → last_first (last_first ws) ≡ ws
last_first_twice [] = refl
last_first_twice (w ∷ ws) =
    last_first-append (last_first ws) w ∙ ap (λ t. w ∷ t) (last_first_twice ws)

shutdown_of :
    (xs : List Text) (r : WorkerRunner)
    → r.workers ≡ last_first xs
    → r.power_manager ≡ record { state = up; pending_state = none }
    → (s : WorkerRunner) × (shutdown r ≡ ok s)
      × (exits (length xs) s ≡ ok (ended (r.killed ++ xs) r.callbacks))
unfolding shutdown shutdown_fn is_running is_up going_down switch_state commit exits
shutdown_of [] r f p = (
  ended r.killed r.callbacks,
  rw p (rw f refl),
  ap (λ t. ok (ended t r.callbacks)) (sym (append-nil r.killed)),
)
shutdown_of (x ∷ xs) r f p = (
  waiting (last_first xs) x (r.killed ++ x ∷ []) r.callbacks,
  rw p (rw f (rw (split_last-append (last_first xs) x) refl)),
  exits_lem xs x (r.killed ++ x ∷ []) r.callbacks
      ∙ ap (λ t. ok (ended t r.callbacks)) (append_assoc r.killed (x ∷ []) xs),
)

length-last_first : (ws : List Text) → length (last_first ws) ≡ length ws
length-last_first [] = refl
length-last_first (w ∷ ws) =
    omega (arith, length-last_first ws, length-append (last_first ws) (w ∷ []))

-- The shutdown of a runner that is up with no change pending comes to its end: it is accepted, and
-- after as many exits as there are threads, each of the thread that is waited for, every thread was
-- sent SIGHUP exactly once, the last one first, none is left or waited for, the runner is down, and
-- the callback was called once.
pub shutdown-exits :
    (r : WorkerRunner)
    → r.power_manager ≡ record { state = up; pending_state = none }
    → (s : WorkerRunner) × (shutdown r ≡ ok s)
      × (exits (length r.workers) s
          ≡ ok (record {
            power_manager = record { state = down; pending_state = none };
            workers = [];
            awaited = none;
            killed = r.killed ++ last_first r.workers;
            callbacks = r.callbacks + 1;
          }))
shutdown-exits r p =
    let (s, accepted, done) =
      shutdown_of (last_first r.workers) r (sym (last_first_twice r.workers)) p in
    (s, accepted, ap (λ n. exits n s) (sym (length-last_first r.workers)) ∙ done)
