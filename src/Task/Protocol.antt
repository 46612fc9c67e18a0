-- ===== src/Task/Protocol.antt =====
-- What a client is told of an execution of the server.
use rosnavigation2copy.Prelude.{
  ◌≡◌, ◌≢◌, refl, Bool, true, false, some, List, [], ◌∷◌, ◌++◌, arith, Bool-cases, inl, inr,
}
use rosnavigation2copy.Task.{succeeded, failed, running, canceled, code, Message, result, status}
use rosnavigation2copy.Task.Server.{
  Outcome, returned, threw, TaskServer, finish, execute, report, next_round,
}
use rosnavigation2copy.Task.Client.{
  TaskClient, Reply, returns, returns_result, send, receive, wait_for, wait_for_data,
  wait_for_result, on_result_received, on_status_received,
}

-- The two topics are not ordered against each other: a result that is sent first may arrive first,
-- after its status, or only while the client waits for it.
pub data Order : Type 0 where
  in_order result_after result_late : Order

module _ {R : Type 0} where
  abbrev pub arrivals : Order → List (Message R) → List (Message R) × List (Message R)
  arrivals result_after (result r ∷ status c ∷ []) = (status c ∷ result r ∷ [], [])
  arrivals result_late (result r ∷ status c ∷ []) = (status c ∷ [], result r ∷ [])
  arrivals _ log = (log, [])

  -- What the outcome of an execution means to the client, with the result that was set.
  abbrev pub reply_to : Outcome → R → Reply R
  reply_to (returned succeeded) r = returns_result r
  reply_to (returned st) r = returns st
  reply_to threw r = returns failed

  abbrev pub receive_all : List (Message R) → TaskClient R → TaskClient R
  receive_all [] c = c
  receive_all (msg ∷ msgs) c = receive_all msgs (receive msg c)

  abbrev messages_for : Outcome → R → List (Message R)
  messages_for (returned succeeded) r = result r ∷ status (code succeeded) ∷ []
  messages_for (returned st) r = status (code st) ∷ []
  messages_for threw r = status (code failed) ∷ status (code failed) ∷ []

  wait_for_result-messages_for :
      (order : Order) (o : Outcome) (r : R) (c : TaskClient R)
      → o ≢ returned running
      → let (first, later) = arrivals order (messages_for o r) in
        (wait_for_result first later (send c)).1 ≡ reply_to o r
  unfolding wait_for_result wait_for_data wait_for send on_result_received on_status_received
  wait_for_result-messages_for in_order (returned succeeded) r c h = refl
  wait_for_result-messages_for result_after (returned succeeded) r c h = refl
  wait_for_result-messages_for result_late (returned succeeded) r c h = refl
  wait_for_result-messages_for in_order (returned failed) r c h = refl
  wait_for_result-messages_for result_after (returned failed) r c h = refl
  wait_for_result-messages_for result_late (returned failed) r c h = refl
  wait_for_result-messages_for in_order (returned canceled) r c h = refl
  wait_for_result-messages_for result_after (returned canceled) r c h = refl
  wait_for_result-messages_for result_late (returned canceled) r c h = refl
  wait_for_result-messages_for order (returned running) r c h = absurd (h refl)
  wait_for_result-messages_for in_order threw r c h = refl
  wait_for_result-messages_for result_after threw r c h = refl
  wait_for_result-messages_for result_late threw r c h = refl

  wait_for-step :
      (flag : TaskClient R → Bool) (x : Message R) (xs : List (Message R)) (c : TaskClient R)
      → flag c ≡ false
      → wait_for flag (x ∷ xs) c ≡ wait_for flag xs (receive x c)
  unfolding wait_for
  wait_for-step flag x xs c e = rw (wait_for, e) refl

  wait_for-over :
      (flag : TaskClient R → Bool) (x : Message R) (xs : List (Message R)) (c : TaskClient R)
      → flag c ≡ true
      → (wait_for flag (x ∷ xs) c).0 ≡ c
  unfolding wait_for
  wait_for-over flag x xs c e = rw (wait_for, e) refl

  wait_for-append :
      (flag : TaskClient R → Bool) (xs ys : List (Message R)) (c : TaskClient R)
      → flag (wait_for flag xs c).0 ≡ false
      → wait_for flag (xs ++ ys) c ≡ wait_for flag ys (wait_for flag xs c).0
  wait_for-append flag [] ys c h = unfold wait_for in refl
  wait_for-append flag (x ∷ xs) ys c h =
      let ih = wait_for-append flag xs ys (receive x c) in
      elim (Bool-cases (flag c)) [
        | inl e ↦ let over = wait_for-over flag x xs c e in cc
        | inr e ↦
            rw (wait_for-step flag x (xs ++ ys) c e, wait_for-step flag x xs c e)
              (ih (rw (wait_for-step flag x xs c e) at h))
      ]

  wait_for_data-ended :
      (msgs : List (Message R)) (c : TaskClient R) → (wait_for_data msgs c).1 ≢ returns running
  unfolding wait_for_data
  wait_for_data-ended msgs c h = ground arith

  -- A wait that ran out of time.
  running-unset :
      (first later : List (Message R)) (c : TaskClient R)
      → (wait_for_result first later c).1 ≡ returns running
      → let c1 = (wait_for (λ (c : TaskClient R). c.status_received) first c).0 in
        (c1.status_received ≡ false) × ((wait_for_result first later c).0 ≡ c1)
  unfolding wait_for_result
  running-unset first later c h =
      let (c1, rest) = wait_for (λ (c : TaskClient R). c.status_received) first c in
      let data_ended = wait_for_data-ended (rest ++ later) c1 in ground arith

  -- A wait that ends as RUNNING loses nothing: the next wait returns what one longer wait would have
  -- returned, and leaves the client in the same state.
  pub wait_for_result-again :
      (xs zs ys later : List (Message R)) (c : TaskClient R)
      → (wait_for_result xs zs c).1 ≡ returns running
      → wait_for_result ys later (wait_for_result xs zs c).0 ≡ wait_for_result (xs ++ ys) later c
  wait_for_result-again xs zs ys later c h =
      let (unset, same) = running-unset xs zs c h in
      rw same (unfold wait_for_result in rw (wait_for-append _ xs ys c unset) refl)

module _ {C R : Type 0} where
  finish-messages_for :
      (o : Outcome) (s s' : TaskServer C R) (log : List (Message R))
      → finish o s ≡ some (s', log)
      → (log ≡ messages_for o s.result_msg) × o ≢ returned running
  unfolding finish execute report next_round
  finish-messages_for threw s s' log e = (ground arith, λ h. ground arith)
  finish-messages_for (returned succeeded) s s' log e = (ground arith, λ h. ground arith)
  finish-messages_for (returned failed) s s' log e = (ground arith, λ h. ground arith)
  finish-messages_for (returned canceled) s s' log e = (ground arith, λ h. ground arith)
  finish-messages_for (returned running) s s' log e = ground arith

  -- A client that has sent a command and then gets what one execution publishes, in any order of the
  -- two topics, is told the outcome: the result that the server had set if the task succeeded, and
  -- otherwise FAILED or CANCELED; an exception is told as FAILED.
  pub wait_for_result-finish :
      (order : Order) (o : Outcome) (s s' : TaskServer C R) (log : List (Message R))
      (c : TaskClient R)
      → finish o s ≡ some (s', log)
      → let (first, later) = arrivals order log in
        (wait_for_result first later (send c)).1 ≡ reply_to o s.result_msg
  wait_for_result-finish order o s s' log c e =
      let (same, ends) = finish-messages_for o s s' log e in
      rw same (wait_for_result-messages_for order o s.result_msg c ends)
