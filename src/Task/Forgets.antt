-- ===== src/Task/Forgets.antt =====
-- A client that has sent something has forgotten what arrived before.
use rosnavigation2copy.Prelude.{
  ◌≡◌, refl, sym, ap, ◌∙◌, Bool, true, Bool-cases, inl, inr, List, [], ◌∷◌, ◌++◌, ◌==◌,
}
use mathlib.Core.Bool.{true≢false}
use rosnavigation2copy.Task.{succeeded, failed, canceled, code, Message, result, status}
use rosnavigation2copy.Task.Client.{
  TaskClient, send, receive, on_result_received, on_status_received, wait_for, wait_for_data,
  wait_for_result,
}

-- The clients have flagged the same, and hold the same where it is flagged.
record Same {R : Type 0} (c c' : TaskClient R) : Type 0 where
  told : c.status_received ≡ c'.status_received
  given : c.result_received ≡ c'.result_received
  statuses : c.status_received ≡ true → c.status_msg ≡ c'.status_msg
  results : c.result_received ≡ true → c.result_msg ≡ c'.result_msg

module _ {R : Type 0} where
  receive-Same :
      (x : Message R) (c c' : TaskClient R) → Same c c' → Same (receive x c) (receive x c')
  unfolding on_result_received on_status_received
  receive-Same (result r) c c' s = record {
    told = s.told;
    given = refl;
    statuses = s.statuses;
    results = λ _. refl;
  }
  receive-Same (status n) c c' s = record {
    told = refl;
    given = s.given;
    statuses = λ _. refl;
    results = s.results;
  }

  wait_for-Same :
      (flag : TaskClient R → Bool)
      → ((c c' : TaskClient R) → Same c c' → flag c ≡ flag c')
      → (msgs : List (Message R)) (c c' : TaskClient R) → Same c c'
      → Same (wait_for flag msgs c).0 (wait_for flag msgs c').0
        × ((wait_for flag msgs c).1 ≡ (wait_for flag msgs c').1)
  unfolding wait_for
  wait_for-Same flag alike [] c c' s = (s, refl)
  wait_for-Same flag alike (x ∷ xs) c c' s = elim (Bool-cases (flag c)) [
    | inl t ↦ rw (wait_for, t, sym (alike c c' s) ∙ t) (s, refl)
    | inr f ↦
        rw (wait_for, f, sym (alike c c' s) ∙ f)
          (wait_for-Same flag alike xs (receive x c) (receive x c') (receive-Same x c c' s))
  ]

  wait_for_data-Same :
      (msgs : List (Message R)) (c c' : TaskClient R)
      → Same c c'
      → (wait_for_data msgs c).1 ≡ (wait_for_data msgs c').1
  unfolding wait_for_data
  wait_for_data-Same msgs c c' s =
      let flag = λ (c : TaskClient R). c.result_received in
      let w = (wait_for-Same flag (λ c c' s. s.given) msgs c c' s).0 in
      elim (Bool-cases (wait_for flag msgs c).0.result_received) [
        | inl t ↦ rw (wait_for_data, t, sym w.given ∙ t, w.results t) refl
        | inr f ↦ rw (wait_for_data, f, sym w.given ∙ f) refl
      ]

  wait_for_result-Same :
      (first later : List (Message R)) (c c' : TaskClient R)
      → Same c c'
      → (wait_for_result first later c).1 ≡ (wait_for_result first later c').1
  unfolding wait_for_result
  wait_for_result-Same first later c c' s =
      let flag = λ (c : TaskClient R). c.status_received in
      let (w, rest) = wait_for-Same flag (λ c c' s. s.told) first c c' s in
      let c1 = (wait_for flag first c).0 in
      elim (Bool-cases c1.status_received) [
        | inr f ↦ rw (wait_for_result, f, sym w.told ∙ f) refl
        | inl t ↦ elim (Bool-cases (c1.status_msg == code failed)) [
          | inl a ↦ rw (wait_for_result, t, sym w.told ∙ t, sym (w.statuses t), a) refl
          | inr a ↦ elim (Bool-cases (c1.status_msg == code canceled)) [
            | inl b ↦ rw (wait_for_result, t, sym w.told ∙ t, sym (w.statuses t), a, b) refl
            | inr b ↦ elim (Bool-cases (c1.status_msg == code succeeded)) [
              | inl d ↦
                  rw (wait_for_result, t, sym w.told ∙ t, sym (w.statuses t), a, b, d)
                    (wait_for_data-Same _ c1 (wait_for flag first c').0 w
                      ∙ ap (λ m. (wait_for_data (m ++ later) (wait_for flag first c').0).1) rest)
              | inr d ↦ rw (wait_for_result, t, sym w.told ∙ t, sym (w.statuses t), a, b, d) refl
            ]
          ]
        ]
      ]

  -- What has arrived before a command or an update is sent is forgotten: after the send any two
  -- clients are told the same by a wait, and given the same result, if the same arrives for them.
  pub wait_for_result-send :
      (first later : List (Message R)) (c c' : TaskClient R)
      → (wait_for_result first later (send c)).1 ≡ (wait_for_result first later (send c')).1
  unfolding send
  wait_for_result-send first later c c' =
      wait_for_result-Same first later (send c) (send c') (record {
        told = refl;
        given = refl;
        statuses = λ h. absurd (true≢false (sym h));
        results = λ h. absurd (true≢false (sym h));
      })
