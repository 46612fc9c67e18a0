-- ===== src/Task/Server/Flags.antt =====
-- What the flags of the server mean between the steps.
use rosnavigation2copy.Prelude.{
  ℕ, ◌+◌, ◌≡◌, ◌≢◌, Bool, true, false, none, some, List, arith, refl, sym, ◌∙◌, if◌then◌else◌,
}
use rosnavigation2copy.Task.{succeeded, failed, running, canceled, Message}
use rosnavigation2copy.Task.Server.{
  executing, Outcome, returned, threw, TaskServer, new, finish, execute, report, next_round, Step,
  Run, stop, step,
}
use rosnavigation2copy.Task.Server.{
  on_command_received, on_update_received, on_cancel_received, set_canceled, set_updated,
  set_result, get_command_update,
}

abbrev is_canceled : Outcome → Bool
is_canceled (returned canceled) = true
is_canceled _ = false

module _ {C R : Type 0} where
  -- A command that is flagged is there, and while the worker executes it is flagged; likewise for an
  -- update.
  pub record IsValid (s : TaskServer C R) : Type 0 where
    pub commanded : s.command_received ≡ true → s.command ≢ none
    pub busy : s.phase ≡ executing → s.command_received ≡ true
    pub updated : s.update_received ≡ true → s.update ≢ none

  pub new-IsValid : (blank : R) → IsValid (new {C = C} blank)
  unfolding new
  new-IsValid blank = record {
    commanded = λ h. ground arith;
    busy = λ h. ground arith;
    updated = λ h. ground arith;
  }

  finish-keeps :
      (o : Outcome) (s s' : TaskServer C R) (log : List (Message R))
      → finish o s ≡ some (s', log)
      → (s'.command_received ≡ false)
        × (s'.phase ≢ executing)
        × (s'.update ≡ s.update)
        × (s'.update_received ≡ s.update_received)
        × (s'.cancel_received ≡ (if is_canceled o then false else s.cancel_received))
  unfolding finish execute report next_round
  finish-keeps threw s s' log e = ground arith
  finish-keeps (returned succeeded) s s' log e = ground arith
  finish-keeps (returned failed) s s' log e = ground arith
  finish-keeps (returned canceled) s s' log e = ground arith
  finish-keeps (returned running) s s' log e = ground arith

  finish-IsValid :
      (o : Outcome) (s s' : TaskServer C R) (log : List (Message R))
      → IsValid s
      → finish o s ≡ some (s', log)
      → IsValid s'
  finish-IsValid o s s' log v e =
      let (f, w, u, g, _) = finish-keeps o s s' log e in
      record {
        commanded = λ h. ground arith;
        busy = λ h. absurd (w h);
        updated = λ h k. v.updated (sym g ∙ h) (sym u ∙ k);
      }

  Step-IsValid :
      {s s' : TaskServer C R} {log : List (Message R)} → Step s log s' → IsValid s → IsValid s'
  unfolding next_round on_command_received on_update_received on_cancel_received set_canceled
      set_updated set_result get_command_update
  Step-IsValid (Step.command msg w) v = record {
    commanded = λ h k. ground arith;
    busy = λ h. refl;
    updated = v.updated;
  }
  Step-IsValid (Step.update msg) v = record {
    commanded = v.commanded;
    busy = v.busy;
    updated = λ h k. ground arith;
  }
  Step-IsValid Step.cancel v = record {
    commanded = v.commanded;
    busy = v.busy;
    updated = v.updated;
  }
  Step-IsValid (Step.begin w c) v = record {
    commanded = v.commanded;
    busy = λ h. c;
    updated = v.updated;
  }
  Step-IsValid (Step.time_out w c) v = record {
    commanded = v.commanded;
    busy = λ h. ground arith;
    updated = v.updated;
  }
  Step-IsValid (Step.user_canceled w) v = record {
    commanded = v.commanded;
    busy = v.busy;
    updated = v.updated;
  }
  Step-IsValid (Step.user_updated w) v = record {
    commanded = v.commanded;
    busy = v.busy;
    updated = λ h. ground arith;
  }
  Step-IsValid (Step.user_command_update msg w u) v = record {
    commanded = λ h k. ground arith;
    busy = v.busy;
    updated = v.updated;
  }
  Step-IsValid (Step.user_result r w) v = record {
    commanded = v.commanded;
    busy = v.busy;
    updated = v.updated;
  }
  Step-IsValid {s} {s'} {log} (Step.finished o w e) v = finish-IsValid o s s' log v e
  Step-IsValid Step.shutdown v = record {
    commanded = v.commanded;
    busy = v.busy;
    updated = v.updated;
  }

  -- In every run from a valid state the flags stay true to their words: a command that is flagged is
  -- there, an executing worker has its command, and an update that is flagged is there.
  pub Run-IsValid :
      {s s' : TaskServer C R} {log : List (Message R)} → Run s log s' → IsValid s → IsValid s'
  Run-IsValid stop v = v
  Run-IsValid (step st run) v = Run-IsValid run (Step-IsValid st v)

  -- The steps that drop a cancel request.
  abbrev drops : {s s' : TaskServer C R} {log : List (Message R)} → Step s log s' → ℕ
  drops (Step.finished (returned canceled) w e) = 1
  drops (Step.user_canceled w) = 1
  drops _ = 0

  abbrev pub dropped : {s s' : TaskServer C R} {log : List (Message R)} → Run s log s' → ℕ
  dropped stop = 0
  dropped (step st run) = drops st + dropped run

  Step-cancel :
      {s s' : TaskServer C R} {log : List (Message R)} (st : Step s log s')
      → s.cancel_received ≡ true
      → drops st ≡ 0
      → s'.cancel_received ≡ true
  unfolding next_round on_command_received on_update_received on_cancel_received set_canceled
      set_updated set_result get_command_update
  Step-cancel (Step.command msg w) h n = h
  Step-cancel (Step.update msg) h n = h
  Step-cancel Step.cancel h n = refl
  Step-cancel (Step.begin w c) h n = h
  Step-cancel (Step.time_out w c) h n = h
  Step-cancel (Step.user_canceled w) h n = ground arith
  Step-cancel (Step.user_updated w) h n = h
  Step-cancel (Step.user_command_update msg w u) h n = h
  Step-cancel (Step.user_result r w) h n = h
  Step-cancel {s} {s'} {log} (Step.finished (returned canceled) w e) h n = ground arith
  Step-cancel {s} {s'} {log} (Step.finished o w e) h n =
      let (_, _, _, _, k) = finish-keeps o s s' log e in ground arith
  Step-cancel Step.shutdown h n = h

  -- A cancel request stays until an execution ends as canceled or its callback drops it: it outlives
  -- an execution that ends in another way, and a new command.
  pub Run-cancel :
      {s s' : TaskServer C R} {log : List (Message R)} (run : Run s log s')
      → s.cancel_received ≡ true
      → dropped run ≡ 0
      → s'.cancel_received ≡ true
  Run-cancel stop h n = h
  Run-cancel (step st run) h n = Run-cancel run (Step-cancel st h (omega arith)) (omega arith)
