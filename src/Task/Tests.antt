-- ===== src/Task/Tests.antt =====
-- A server of tasks numbered by commands and results, its client, and the theorems at them.
use rosnavigation2copy.Prelude.{ℕ, ◌+◌, ◌≡◌, refl, true, false, some, List, [], ◌∷◌, ◌++◌, arith}
use rosnavigation2copy.Task.{succeeded, code, Message, result, status}
use rosnavigation2copy.Task.Server.{
  executing, returned, TaskServer, on_command_received, on_cancel_received, set_result, next_round,
  execute, report, finish, Step, Run, stop, step,
}
use rosnavigation2copy.Task.Server
use rosnavigation2copy.Task.Server.Accounting.{
  busy, statuses, paired, begun, thrown, Run-statuses, Run-paired,
}
use rosnavigation2copy.Task.Server.Flags.{IsValid, new-IsValid, Run-IsValid, Run-cancel}
use rosnavigation2copy.Task.Client
use rosnavigation2copy.Task.Client.{
  TaskClient, returns, returns_result, send, receive, wait_for, wait_for_data, wait_for_result,
  on_result_received, on_status_received,
}
use rosnavigation2copy.Task.Forgets.{wait_for_result-send}
use rosnavigation2copy.Task.Protocol.{
  result_late, receive_all, wait_for_result-finish, wait_for_result-again,
}

abbrev fresh : TaskServer ℕ ℕ
fresh = Server.new 0

abbrev commanded : TaskServer ℕ ℕ
commanded = on_command_received 7 fresh

abbrev started : TaskServer ℕ ℕ
started = record commanded { phase = executing }

abbrev worked : TaskServer ℕ ℕ
worked = set_result 70 (on_cancel_received started)

abbrev ended : TaskServer ℕ ℕ
ended = next_round (record worked { command_received = false })

abbrev log : List (Message ℕ)
log = result 70 ∷ status (code succeeded) ∷ []

-- A command comes, the worker takes it, a cancel request comes, and a result is set.
working : Run fresh [] worked
unfolding Server.new on_command_received on_cancel_received set_result
working =
    step (Step.command 7 (λ h. ground arith))
      (step (Step.begin refl refl) (step Step.cancel (step (Step.user_result 70 refl) stop)))

-- The cancel request comes too late: the task succeeds.
succeeding : finish (returned succeeded) worked ≡ some (ended, log)
unfolding Server.new on_command_received on_cancel_received set_result finish execute report
succeeding = refl

whole_run : Run worked log ended
unfolding Server.new on_command_received on_cancel_received set_result
whole_run = step (Step.finished (returned succeeded) refl succeeding) stop

Run-statuses_example : statuses log + busy ended.phase ≡ begun whole_run + thrown whole_run + 1
unfolding Server.new on_command_received on_cancel_received set_result
Run-statuses_example = Run-statuses whole_run

Run-paired_example : paired log ≡ true
Run-paired_example = Run-paired whole_run

Run-IsValid_example : IsValid worked
Run-IsValid_example = Run-IsValid working (new-IsValid 0)

-- The late cancel request is there for the next task.
Run-cancel_example : ended.cancel_received ≡ true
unfolding whole_run Server.new on_command_received on_cancel_received set_result
Run-cancel_example = Run-cancel whole_run refl refl

taken : Run started [] worked
unfolding Server.new on_command_received on_cancel_received set_result
taken = step Step.cancel (step (Step.user_result 70 refl) stop)

abbrev asking : TaskClient ℕ
asking = Client.new

wait_for_result-finish_example :
    (wait_for_result (status 0 ∷ []) (result 70 ∷ []) (send asking)).1 ≡ returns_result 70
unfolding Server.new on_command_received on_cancel_received set_result
wait_for_result-finish_example =
    wait_for_result-finish result_late (returned succeeded) worked ended log asking succeeding

wait_for_result-send_example :
    (wait_for_result (status 2 ∷ []) [] (send (receive_all log asking))).1
    ≡ (wait_for_result (status 2 ∷ []) [] (send asking)).1
wait_for_result-send_example =
    wait_for_result-send (status 2 ∷ []) [] (receive_all log asking) asking

-- The result has come in the first wait, and its status comes in the second.
wait_for_result-again_example :
    let waited = wait_for_result (result 70 ∷ []) [] (send asking) in
    wait_for_result (status 0 ∷ []) [] waited.0
    ≡ wait_for_result ((result 70 ∷ []) ++ (status 0 ∷ [])) [] (send asking)
unfolding Client.new send wait_for_result wait_for on_result_received on_status_received
wait_for_result-again_example =
    wait_for_result-again (result 70 ∷ []) [] (status 0 ∷ []) [] (send asking) refl
