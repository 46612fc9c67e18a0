-- ===== src/Task/Client.antt =====
-- nav2_tasks/include/nav2_tasks/task_client.hpp: the flags of the client, and the wait for a result.
-- What arrives while a call waits is an argument, in order; a wait ends as soon as its flag is set.
use rosnavigation2copy.Prelude.{
  ℕ, Bool, true, false, not, Option, none, some, List, [], ◌∷◌, ◌++◌, if◌then◌else◌, ◌==◌,
}
use rosnavigation2copy.Task.{
  TaskStatus, succeeded, failed, running, canceled, code, Message, result, status,
}

pub record TaskClient (R : Type 0) : Type 0 where
  pub result_msg : Option R
  pub status_msg : ℕ
  pub status_received : Bool
  pub result_received : Bool

-- What waitForResult returns, with the result where it is written; `throws` is the exception
-- "Invalid status value from TaskServer", and `faults` the reading of a null pointer.
pub data Reply (R : Type 0) : Type 0 where
  returns : TaskStatus → Reply R
  returns_result : R → Reply R
  throws : Reply R
  faults : Reply R

module _ {R : Type 0} where
  -- The constructor: a status message is default constructed.
  unfoldable pub new : TaskClient R
  new = record {
    result_msg = none;
    status_msg = 0;
    status_received = false;
    result_received = false;
  }

  -- The part of sendCommand and sendUpdate that sets the state.
  unfoldable pub send : TaskClient R → TaskClient R
  send c = record c { result_received = false; status_received = false }

  unfoldable pub on_result_received : R → TaskClient R → TaskClient R
  on_result_received r c = record c { result_msg = some r; result_received = true }

  unfoldable pub on_status_received : ℕ → TaskClient R → TaskClient R
  on_status_received s c = record c { status_msg = s; status_received = true }

  abbrev pub receive : Message R → TaskClient R → TaskClient R
  receive (result r) c = on_result_received r c
  receive (status s) c = on_status_received s c

  -- wait_for on a flag: the client at its end, and the messages that come after it.
  unfoldable pub wait_for :
      (TaskClient R → Bool) → List (Message R) → TaskClient R → TaskClient R × List (Message R)
  wait_for flag [] c = (c, [])
  wait_for flag (msg ∷ msgs) c = elim (flag c) [
    | true ↦ (c, msg ∷ msgs)
    | false ↦ wait_for flag msgs (receive msg c)
  ]

  -- The wait for the result of a task that has succeeded; the result is read through its pointer.
  unfoldable pub wait_for_data : List (Message R) → TaskClient R → TaskClient R × Reply R
  wait_for_data msgs c =
      let c1 = (wait_for (λ c. c.result_received) msgs c).0 in
      if c1.result_received
      then (
        record c1 { result_received = false },
        elim c1.result_msg [ none ↦ faults | some r ↦ returns_result r ],
      )
      else (c1, returns failed)

  -- `first` arrives during the wait for a status, and `later` while a result is awaited.
  unfoldable pub wait_for_result :
      List (Message R) → List (Message R) → TaskClient R → TaskClient R × Reply R
  wait_for_result first later c =
      let (c1, rest) = wait_for (λ c. c.status_received) first c in
      if not c1.status_received
      then (c1, returns running)
      else if c1.status_msg == code failed
      then (c1, returns failed)
      else if c1.status_msg == code canceled
      then (c1, returns canceled)
      else if c1.status_msg == code succeeded
      then wait_for_data (rest ++ later) c1
      else (c1, throws)
