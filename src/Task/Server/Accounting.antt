-- ===== src/Task/Server/Accounting.antt =====
-- Each execution is answered.
use rosnavigation2copy.Prelude.{
  ℕ, suc, ◌+◌, ◌≡◌, Bool, true, false, not, ◌&&◌, some, List, [], ◌∷◌, ◌++◌, arith, ◌==◌, refl,
}
use rosnavigation2copy.Task.{succeeded, failed, running, canceled, code, Message, result, status}
use rosnavigation2copy.Task.Server.{
  Phase, executing, Outcome, returned, threw, TaskServer, finish, execute, report, next_round, Step,
  Run, stop, step,
}
use rosnavigation2copy.Task.Server.{
  on_command_received, on_update_received, on_cancel_received, set_canceled, set_updated,
  set_result, get_command_update,
}

abbrev pub busy : Phase → ℕ
busy executing = 1
busy _ = 0

module _ {R : Type 0} where
  -- The statuses among the messages.
  abbrev pub statuses : List (Message R) → ℕ
  statuses [] = 0
  statuses (result r ∷ log) = statuses log
  statuses (status c ∷ log) = suc (statuses log)

  -- A result comes right before a SUCCEEDED status, and nowhere else, and such a status has one.
  abbrev pub paired : List (Message R) → Bool
  paired [] = true
  paired (status c ∷ log) = not (c == code succeeded) && paired log
  paired (result r ∷ status c ∷ log) = c == code succeeded && paired log
  paired (result r ∷ _) = false

  statuses-append : (xs ys : List (Message R)) → statuses (xs ++ ys) ≡ statuses xs + statuses ys
  statuses-append [] ys = omega arith
  statuses-append (result r ∷ xs) ys = statuses-append xs ys
  statuses-append (status c ∷ xs) ys = omega (arith, statuses-append xs ys)

  paired-append :
      (xs ys : List (Message R)) → paired xs ≡ true → paired ys ≡ true → paired (xs ++ ys) ≡ true
  paired-append [] ys h k = k
  paired-append (status c ∷ xs) ys h k =
      let rest = λ (e : paired xs ≡ true). paired-append xs ys e k in ground (arith, rest)
  paired-append (result r ∷ status c ∷ xs) ys h k =
      let rest = λ (e : paired xs ≡ true). paired-append xs ys e k in ground (arith, rest)
  paired-append (result r ∷ result r' ∷ xs) ys h k = ground arith
  paired-append (result r ∷ []) ys h k = ground arith

module _ {C R : Type 0} where
  -- The executions that a run begins, and those of its that throw.
  abbrev pub begins : {s s' : TaskServer C R} {log : List (Message R)} → Step s log s' → ℕ
  begins (Step.begin w c) = 1
  begins _ = 0

  abbrev pub throws : {s s' : TaskServer C R} {log : List (Message R)} → Step s log s' → ℕ
  throws (Step.finished threw w e) = 1
  throws _ = 0

  abbrev pub begun : {s s' : TaskServer C R} {log : List (Message R)} → Run s log s' → ℕ
  begun stop = 0
  begun (step st run) = begins st + begun run

  abbrev pub thrown : {s s' : TaskServer C R} {log : List (Message R)} → Run s log s' → ℕ
  thrown stop = 0
  thrown (step st run) = throws st + thrown run

  finish-statuses :
      (o : Outcome) (s s' : TaskServer C R) (log : List (Message R))
      → finish o s ≡ some (s', log)
      → (paired log ≡ true)
        × (busy s'.phase ≡ 0)
        × (statuses log ≡ elim o [ threw ↦ 2 | returned st ↦ 1 ])
  unfolding finish execute report next_round
  finish-statuses threw s s' log e = ground arith
  finish-statuses (returned succeeded) s s' log e = ground arith
  finish-statuses (returned failed) s s' log e = ground arith
  finish-statuses (returned canceled) s s' log e = ground arith
  finish-statuses (returned running) s s' log e = ground arith

  Step-statuses :
      {s s' : TaskServer C R} {log : List (Message R)} (st : Step s log s')
      → (paired log ≡ true) × (statuses log + busy s'.phase ≡ begins st + throws st + busy s.phase)
  unfolding next_round on_command_received on_update_received on_cancel_received set_canceled
      set_updated set_result get_command_update
  Step-statuses (Step.command msg w) = (refl, refl)
  Step-statuses (Step.update msg) = (refl, refl)
  Step-statuses Step.cancel = (refl, refl)
  Step-statuses (Step.begin w c) = (refl, ground arith)
  Step-statuses (Step.time_out w c) = (refl, ground arith)
  Step-statuses (Step.user_canceled w) = (refl, refl)
  Step-statuses (Step.user_updated w) = (refl, refl)
  Step-statuses (Step.user_command_update msg w u) = (refl, refl)
  Step-statuses (Step.user_result r w) = (refl, refl)
  Step-statuses {s} {s'} {log} (Step.finished threw w e) =
      let (p, b, n) = finish-statuses threw s s' log e in (p, ground arith)
  Step-statuses {s} {s'} {log} (Step.finished (returned st) w e) =
      let (p, b, n) = finish-statuses (returned st) s s' log e in (p, ground arith)
  Step-statuses Step.shutdown = (refl, refl)

  -- In every run each execution is answered: the statuses published, and one more for an execution
  -- under way at the end, are as many as the executions begun, one more for one under way at the
  -- start, and one more for each that threw, which is reported twice.
  pub Run-statuses :
      {s s' : TaskServer C R} {log : List (Message R)} (run : Run s log s')
      → statuses log + busy s'.phase ≡ begun run + thrown run + busy s.phase
  Run-statuses stop = refl
  Run-statuses (step {now = now} {later = later} st run) =
      omega (arith, statuses-append now later, (Step-statuses st).1, Run-statuses run)

  -- In every run a result is published right before each SUCCEEDED status, and nowhere else.
  pub Run-paired :
      {s s' : TaskServer C R} {log : List (Message R)} → Run s log s' → paired log ≡ true
  Run-paired stop = refl
  Run-paired (step {now = now} {later = later} st run) =
      paired-append now later (Step-statuses st).0 (Run-paired run)
