-- ===== src/Redis/Simulation.antt =====
-- Sequences of operations on a database against an abstract state: where each operation does what the
-- abstract one does, any sequence of them does.
use redis_smq.Prelude.{Option, none, some, List, [], ◌∷◌, ◌++◌, ◌≡◌, refl, ap, subst, sym, ◌∙◌, map}
use redis_smq.Redis.Keyspace.{Keyspace}
use redis_smq.Redis.Program.{Program, Outcome, done, exec, exec_after, pure, ◌>>=◌}
use redis_smq.Redis.Server.{Server, IsReliable, result, content, run-exec}

module _ {Op A : Type 0} (program : Op → Program A) where
  -- One operation after the other, with what each of them returns.
  unfoldable pub run_all : List Op → Program (List A)
  run_all [] = pure []
  run_all (o ∷ os) = do r ← program o; rs ← run_all os; pure (r ∷ rs)

abbrev pub and_reply : {State B : Type 0} → B → Option (State × List B) → Option (State × List B)
and_reply r none = none
and_reply r (some (q, rs)) = some (q, r ∷ rs)

module _ {Op State B : Type 0} (step : Op → State → Option (State × B)) where
  -- The abstract operations; none where one of them has no place.
  unfoldable pub steps : List Op → State → Option (State × List B)
  steps [] q = some (q, [])
  steps (o ∷ os) q = elim (step o q) [ none ↦ none | some (q', r) ↦ and_reply r (steps os q') ]

abbrev after_replies :
    {State B : Type 0} → List B → Option (State × List B) → Option (State × List B)
after_replies rs none = none
after_replies rs (some (q, ts)) = some (q, rs ++ ts)

abbrev and_then :
    {State B : Type 0}
    → Option (State × List B)
    → (State → Option (State × List B))
    → Option (State × List B)
and_then none f = none
and_then (some (q, rs)) f = after_replies rs (f q)

after_replies-cons :
    {State B : Type 0} (r : B) (rs : List B) (t : Option (State × List B))
    → and_reply r (after_replies rs t) ≡ after_replies (r ∷ rs) t
after_replies-cons r rs none = refl
after_replies-cons r rs (some (q, ts)) = refl

and_reply-and_then :
    {State B : Type 0} (r : B) (t : Option (State × List B)) (f : State → Option (State × List B))
    → and_reply r (and_then t f) ≡ and_then (and_reply r t) f
and_reply-and_then r none f = refl
and_reply-and_then r (some (q, rs)) f = after_replies-cons r rs (f q)

after_replies-nil : {State B : Type 0} (t : Option (State × List B)) → after_replies [] t ≡ t
after_replies-nil none = refl
after_replies-nil (some (q, ts)) = refl

module _ {Op State B : Type 0} (step : Op → State → Option (State × B)) where
  cons-append :
      (os os' : List Op) (a : Option (State × B))
      → ((q : State) → steps step (os ++ os') q ≡ and_then (steps step os q) (steps step os'))
      → (elim a [ none ↦ none | some (q', r) ↦ and_reply r (steps step (os ++ os') q') ])
        ≡ and_then
            (elim a [ none ↦ none | some (q', r) ↦ and_reply r (steps step os q') ])
            (steps step os')
  cons-append os os' none ih = refl
  cons-append os os' (some (q, r)) ih =
      ap (and_reply r) (ih q) ∙ and_reply-and_then r (steps step os q) (steps step os')

  append_by :
      (os os' : List Op) (q : State)
      → steps step (os ++ os') q ≡ and_then (steps step os q) (steps step os')
  unfolding steps
  append_by [] os' q = sym (after_replies-nil (steps step os' q))
  append_by (o ∷ os) os' q = cons-append os os' (step o q) (append_by os os')

  -- Operations after others.
  pub steps-append :
      (os os' : List Op) (q : State) {q' q'' : State} {rs rs' : List B}
      → steps step os q ≡ some (q', rs)
      → steps step os' q' ≡ some (q'', rs')
      → steps step (os ++ os') q ≡ some (q'', rs ++ rs')
  steps-append os os' q {rs = rs} e e' =
      append_by os os' q ∙ ap (λ t. and_then t (steps step os')) e ∙ ap (after_replies rs) e'

-- A predicate of the state that is left, if there is one.
abbrev pub Then : {State B : Type 0} → (State → Type 0) → Option (State × B) → Type 0
Then P none = Unit
Then P (some (q, r)) = P q

module _ {Op State B : Type 0} (step : Op → State → Option (State × B)) (P : State → Type 0)
    (keeps : (o : Op) (q : State) → P q → Then P (step o q)) where
  reply-Then : (r : B) (t : Option (State × List B)) → Then P t → Then P (and_reply r t)
  reply-Then r none h = tt
  reply-Then r (some (q, rs)) h = h

  cons-Then :
      (os : List Op) (a : Option (State × B))
      → Then P a
      → ((q : State) → P q → Then P (steps step os q))
      → Then P (elim a [ none ↦ none | some (q', r) ↦ and_reply r (steps step os q') ])
  cons-Then os none h rest = tt
  cons-Then os (some (q, r)) h rest = reply-Then r (steps step os q) (rest q h)

  steps-Then : (os : List Op) (q : State) → P q → Then P (steps step os q)
  unfolding steps
  steps-Then [] q h = h
  steps-Then (o ∷ os) q h = cons-Then os (step o q) (keeps o q h) (steps-Then os)

  -- What each step keeps, any steps keep.
  pub steps_keep :
      (os : List Op) (q : State) {q' : State} {rs : List B}
      → steps step os q ≡ some (q', rs)
      → P q
      → P q'
  steps_keep os q e h = subst (Then P) e (steps-Then os q h)

module _ {Op A State B : Type 0} (program : Op → Program A) (step : Op → State → Option (State × B))
    (reply : B → A) (Represents : Keyspace → State → Type 0) where
  -- A run ends with what the abstract operation hands out, and represents the state after it.
  abbrev pub Follows : Outcome A × Keyspace → Option (State × B) → Type 0
  Follows x none = Unit
  Follows x (some (q, r)) = (x.0 ≡ done (reply r)) × Represents x.1 q

  abbrev AllFollow : Outcome (List A) × Keyspace → Option (State × List B) → Type 0
  AllFollow x none = Unit
  AllFollow x (some (q, rs)) = (x.0 ≡ done (map reply rs)) × Represents x.1 q

  reply-AllFollow :
      (o : Op) (os : List Op) (s : Keyspace) (r : B) (t : Option (State × List B))
      → (exec (program o) s).0 ≡ done (reply r)
      → AllFollow (exec (run_all program os) (exec (program o) s).1) t
      → AllFollow (exec (run_all program (o ∷ os)) s) (and_reply r t)
  unfolding run_all exec
  reply-AllFollow o os s r none first rest = tt
  reply-AllFollow o os s r (some (q', rs)) first rest =
      rw (exec_after (program o) (λ r'. run_all program os >>= λ rs'. pure (r' ∷ rs')) s first) (
        rw
          (exec_after (run_all program os) (λ rs'. pure (reply r ∷ rs')) (exec (program o) s).1
            rest.0)
          (refl, rest.1))

  module _
      (follows : (o : Op) (s : Keyspace) (q : State)
        → Represents s q
        → Follows (exec (program o) s) (step o q)) where
    cons-AllFollow :
        (o : Op) (os : List Op) (s : Keyspace) (a : Option (State × B))
        → Follows (exec (program o) s) a
        → ((q : State)
            → Represents (exec (program o) s).1 q
            → AllFollow (exec (run_all program os) (exec (program o) s).1) (steps step os q))
        → AllFollow
            (exec (run_all program (o ∷ os)) s)
            (elim a [ none ↦ none | some (q', r) ↦ and_reply r (steps step os q') ])
    cons-AllFollow o os s none first rest = tt
    cons-AllFollow o os s (some (q', r)) first rest =
        reply-AllFollow o os s r (steps step os q') first.0 (rest q' first.1)

    steps-AllFollow :
        (os : List Op) (s : Keyspace) (q : State)
        → Represents s q
        → AllFollow (exec (run_all program os) s) (steps step os q)
    unfolding run_all steps exec
    steps-AllFollow [] s q h = (refl, h)
    steps-AllFollow (o ∷ os) s q h =
        cons-AllFollow o os s (step o q) (follows o s q h)
          (λ q'. steps-AllFollow os (exec (program o) s).1 q')

    pub simulates :
        (os : List Op) (s : Keyspace) (q : State) {q' : State} {rs : List B}
        → steps step os q ≡ some (q', rs)
        → Represents s q
        → ((exec (run_all program os) s).0 ≡ done (map reply rs))
          × Represents (exec (run_all program os) s).1 q'
    simulates os s q {q'} {rs} e h =
        subst (AllFollow (exec (run_all program os) s)) e (steps-AllFollow os s q h)

    -- The same on a reliable server.
    pub simulates_on :
        (S : Server) (reliable : IsReliable S) (d : S.Db) (os : List Op) (q : State) {q' : State}
        {rs : List B}
        → steps step os q ≡ some (q', rs)
        → Represents (S.view d) q
        → (result S (run_all program os) d ≡ done (map reply rs))
          × Represents (content S (run_all program os) d) q'
    simulates_on S reliable d os q {q'} {rs} e h =
        let ends = simulates os (S.view d) q e h in
        let same = run-exec S reliable (run_all program os) d in
        (same.0 ∙ ends.0, subst (λ s. Represents s q') (sym same.1) ends.1)
