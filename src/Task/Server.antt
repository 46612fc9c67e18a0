-- ===== src/Task/Server.antt =====
-- nav2_tasks/include/nav2_tasks/task_server.hpp: the callbacks of the subscribers, the worker thread
-- and the operations that the execute callback may call, as steps that interleave. The worker holds
-- commandMutex_ while it executes, and releases it while it waits.
pub mod Accounting
pub mod Flags
use rosnavigation2copy.Prelude.{
  ◌≡◌, ◌≢◌, Bool, true, false, Option, none, some, List, [], ◌∷◌, ◌++◌, if◌then◌else◌,
}
use rosnavigation2copy.Task.{
  TaskStatus, succeeded, failed, running, canceled, code, Message, result, status,
}

-- Where the worker thread is: in wait_for, in the execute callback, or past the loop.
pub data Phase : Type 0 where
  waiting executing stopped : Phase

-- What the execute callback does in the end.
pub data Outcome : Type 0 where
  returned : TaskStatus → Outcome
  threw : Outcome

-- `ok` is what rclcpp::ok() says, and `exception` whether eptr_ is set.
pub record TaskServer (C : Type 0) (R : Type 0) : Type 0 where
  pub command : Option C
  pub update : Option C
  pub result_msg : R
  pub command_received : Bool
  pub update_received : Bool
  pub cancel_received : Bool
  pub exception : Bool
  pub ok : Bool
  pub phase : Phase

module _ {C R : Type 0} where
  -- The constructor, with the worker started; a message is default constructed.
  unfoldable pub new : R → TaskServer C R
  new blank = record {
    command = none;
    update = none;
    result_msg = blank;
    command_received = false;
    update_received = false;
    cancel_received = false;
    exception = false;
    ok = true;
    phase = waiting;
  }

  unfoldable pub on_command_received : C → TaskServer C R → TaskServer C R
  on_command_received msg s = record s { command = some msg; command_received = true }

  unfoldable pub on_update_received : C → TaskServer C R → TaskServer C R
  on_update_received msg s = record s { update = some msg; update_received = true }

  unfoldable pub on_cancel_received : TaskServer C R → TaskServer C R
  on_cancel_received s = record s { cancel_received = true }

  unfoldable pub set_canceled : TaskServer C R → TaskServer C R
  set_canceled s = record s { cancel_received = false }

  unfoldable pub set_updated : TaskServer C R → TaskServer C R
  set_updated s = record s { update_received = false }

  -- *command = *updateMsg_, for an update `msg`; the callback was called with commandMsg_.
  unfoldable pub get_command_update : C → TaskServer C R → TaskServer C R
  get_command_update msg s = record s { command = some msg }

  unfoldable pub set_result : R → TaskServer C R → TaskServer C R
  set_result r s = record s { result_msg = r }

  -- The end of a round of the loop: it goes on while rclcpp::ok().
  unfoldable pub next_round : TaskServer C R → TaskServer C R
  next_round s = record s { phase = if s.ok then waiting else stopped }

  -- The call of the callback: an exception is reported at once, kept, and shuts ROS down.
  unfoldable pub execute : Outcome → TaskServer C R → TaskStatus × TaskServer C R × List (Message R)
  execute (returned st) s = (st, s, [])
  execute threw s = (failed, record s { exception = true; ok = false }, status (code failed) ∷ [])

  -- The messages for a status, and whether the cancel request is dropped; `none` is the exception
  -- "Unexpected status return from task", which ends the thread.
  unfoldable pub report : TaskStatus → TaskServer C R → Option (TaskServer C R × List (Message R))
  report succeeded s = some (s, result s.result_msg ∷ status (code succeeded) ∷ [])
  report failed s = some (s, status (code failed) ∷ [])
  report canceled s = some (record s { cancel_received = false }, status (code canceled) ∷ [])
  report running s = none

  -- From the return of the callback to the end of the round, with all that is published.
  unfoldable pub finish : Outcome → TaskServer C R → Option (TaskServer C R × List (Message R))
  finish o s =
      let (st, s1, before) = execute o s in
      elim (report st (record s1 { command_received = false })) [
        | none ↦ none
        | some (s2, after) ↦ some (next_round s2, before ++ after)
      ]

  -- One step of any of the threads, with what it publishes.
  pub data Step : TaskServer C R → List (Message R) → TaskServer C R → Type 0 where
    command :
        {s : TaskServer C R} (msg : C) → s.phase ≢ executing → Step s [] (on_command_received msg s)
    update : {s : TaskServer C R} (msg : C) → Step s [] (on_update_received msg s)
    cancel : {s : TaskServer C R} → Step s [] (on_cancel_received s)
    begin :
        {s : TaskServer C R}
        → s.phase ≡ waiting
        → s.command_received ≡ true
        → Step s [] (record s { phase = executing })
    time_out :
        {s : TaskServer C R}
        → s.phase ≡ waiting
        → s.command_received ≡ false
        → Step s [] (next_round s)
    user_canceled : {s : TaskServer C R} → s.phase ≡ executing → Step s [] (set_canceled s)
    user_updated : {s : TaskServer C R} → s.phase ≡ executing → Step s [] (set_updated s)
    user_command_update :
        {s : TaskServer C R} (msg : C)
        → s.phase ≡ executing
        → s.update ≡ some msg
        → Step s [] (get_command_update msg s)
    user_result : {s : TaskServer C R} (r : R) → s.phase ≡ executing → Step s [] (set_result r s)
    finished :
        {s s' : TaskServer C R} {log : List (Message R)} (o : Outcome)
        → s.phase ≡ executing
        → finish o s ≡ some (s', log)
        → Step s log s'
    shutdown : {s : TaskServer C R} → Step s [] (record s { ok = false })

  pub data Run : TaskServer C R → List (Message R) → TaskServer C R → Type 0 where
    stop : {s : TaskServer C R} → Run s [] s
    step :
        {s s' s'' : TaskServer C R} {now later : List (Message R)}
        → Step s now s'
        → Run s' later s''
        → Run s (now ++ later) s''
