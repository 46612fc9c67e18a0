-- ===== src/Planner/Records.antt =====
-- The evaluation that coreScoringAlgorithm records.
use rosnavigation2copy.Prelude.{
  ℕ, zero, suc, ◌+◌, ◌%◌, ◌<◌, ◌≤◌, Bool, true, false, ◌≡◌, refl, sym, ap, ◌∙◌, Option, some, ◌⊎◌,
  inl, inr, List, [], ◌∷◌, ◌++◌, arith, length, length-append, get_elem?, Bool-cases, if◌then◌else◌,
}
use rosnavigation2copy.Platform.{Floats}
use mathlib.Core.Option
use mathlib.Core.Bool.{true≢false}
use mathlib.Core.Option.{none-ne-some}
use rosnavigation2copy.Planner.{
  TrajectoryCritic, TrajectoryScore, Evaluation, IllegalTrajectoryTracker, Search, minus_one,
  score_trajectory, record_score, accept, reject, evaluate, evaluate_all, start_search,
  core_scoring_algorithm,
}
use rosnavigation2copy.Planner.Scores.{Verdict-cases}

get_elem?-append :
    {A : Type 0} (xs ys : List A) (i : ℕ) (a : A)
    → get_elem? xs i ≡ some a
    → get_elem? (xs ++ ys) i ≡ some a
get_elem?-append [] ys i a h = absurd (none-ne-some a h)
get_elem?-append (x ∷ xs) ys zero a h = h
get_elem?-append (x ∷ xs) ys (suc i) a h = get_elem?-append xs ys i a h

get_elem?-last :
    {A : Type 0} (xs : List A) (a : A) → get_elem? (xs ++ (a ∷ [])) (length xs) ≡ some a
get_elem?-last [] a = refl
get_elem?-last (x ∷ xs) a = get_elem?-last xs a

module _ {N T D W : Type 0} (same : N → N → Bool) (fl : Floats D) (narrow : D → D)
    (critics : List (TrajectoryCritic N T D)) (generate : W → T) where
  -- The index of a score that was set, if one was, is its place among the scores.
  abbrev Places : TrajectoryScore N T D → List (TrajectoryScore N T D) → ℕ → Type 0
  Places s scores i = fl.lt s.total (fl.of_nat 0) ≡ false → get_elem? scores i ≡ some s

  record Records (n : ℕ) (st : Search N T D) : Type 0 where
    evaluation : Evaluation N T D
    stored : st.results ≡ some evaluation
    size : length evaluation.twists ≡ n
    best_place : Places st.best evaluation.twists evaluation.best_index
    worst_place : Places st.worst evaluation.twists evaluation.worst_index

  -- The next score is put at the end, and takes the index if it takes the place of the old one.
  Places-next :
      (old s : TrajectoryScore N T D) (scores : List (TrajectoryScore N T D)) (i : ℕ) (test : Bool)
      → length scores < 65536
      → Places old scores i
      → Places
          (if test then s else old)
          (scores ++ (s ∷ []))
          (if test then length scores % 65536 else i)
  Places-next old s scores i true h p q =
      let e : length scores % 65536 ≡ length scores = omega arith in rw e (get_elem?-last scores s)
  Places-next old s scores i false h p q = get_elem?-append scores (s ∷ []) i old (p q)

  accept-Records :
      (n : ℕ) (s : TrajectoryScore N T D) (st : Search N T D)
      → n < 65536
      → Records n st
      → Records (n + 1) (accept fl narrow s st)
  unfolding accept record_score
  accept-Records n s st h r =
      let fits : length r.evaluation.twists < 65536 = rw r.size h in
      record {
        evaluation = _;
        stored = rw r.stored refl;
        size = length-append r.evaluation.twists (s ∷ []) ∙ ap (λ k. k + 1) r.size;
        best_place =
            Places-next st.best s r.evaluation.twists r.evaluation.best_index _ fits r.best_place;
        worst_place =
            Places-next st.worst s r.evaluation.twists r.evaluation.worst_index _ fits
              r.worst_place;
      }

  refuse-Records :
      (n : ℕ) (s : TrajectoryScore N T D) (tracker : IllegalTrajectoryTracker N) (st : Search N T D)
      → Records n st
      → Records (n + 1) (record st {
        tracker = tracker;
        results = Option.map (record_score fl narrow false false s) st.results;
      })
  unfolding record_score
  refuse-Records n s tracker st r = record {
    evaluation = record_score fl narrow false false s r.evaluation;
    stored = ap (Option.map (record_score fl narrow false false s)) r.stored;
    size = length-append r.evaluation.twists (s ∷ []) ∙ ap (λ k. k + 1) r.size;
    best_place = λ q.
        get_elem?-append r.evaluation.twists (s ∷ []) r.evaluation.best_index st.best
          (r.best_place q);
    worst_place = λ q.
        get_elem?-append r.evaluation.twists (s ∷ []) r.evaluation.worst_index st.worst
          (r.worst_place q);
  }

  reject-Records :
      (n : ℕ) (t : T) (critic reason : N) (st : Search N T D)
      → Records n st
      → Records (n + 1) (reject fl narrow same t critic reason st)
  unfolding reject
  reject-Records n t critic reason st r = refuse-Records n _ _ st r

  evaluate-Records :
      (n : ℕ) (t : T) (st : Search N T D)
      → n < 65536
      → Records n st
      → Records (n + 1) (evaluate same fl narrow critics generate t st)
  unfolding evaluate
  evaluate-Records n t st h r =
      elim (Verdict-cases (score_trajectory fl narrow critics t st.best.total)) [
        | inl (s, e) ↦ rw (evaluate, e) (accept-Records n s st h r)
        | inr (critic, reason, e) ↦ rw (evaluate, e) (reject-Records n t critic reason st r)
      ]

  evaluate_all-Records :
      (n : ℕ) (twists : List W) (st : Search N T D)
      → n + length twists ≤ 65536
      → Records n st
      → Records (n + length twists) (evaluate_all same fl narrow critics generate twists st)
  unfolding evaluate_all
  evaluate_all-Records n [] st h r = let e : n + 0 ≡ n = omega arith in rw e r
  evaluate_all-Records n (w ∷ twists) st h r =
      let e : n + suc (length twists) ≡ n + 1 + length twists = omega arith in
      rw e (
        evaluate_all-Records (n + 1) twists _ (omega arith)
          (evaluate-Records n (generate w) st (omega arith) r))

  start-Records :
      (blank : T) (best_index worst_index : ℕ)
      → fl.lt (minus_one fl) (fl.of_nat 0) ≡ true
      → Records 0 (
          start_search same fl narrow critics generate blank
            (some (record { twists = []; best_index = best_index; worst_index = worst_index })))
  unfolding start_search
  start-Records blank best_index worst_index low = record {
    evaluation = record { twists = []; best_index = best_index; worst_index = worst_index };
    stored = refl;
    size = refl;
    best_place = λ q. absurd (true≢false (sym low ∙ q));
    worst_place = λ q. absurd (true≢false (sym low ∙ q));
  }

  -- The evaluation has a score for each twist, and its best index is the place of the result.
  pub record IsRecord (twists : List W)
      (out : (IllegalTrajectoryTracker N ⊎ TrajectoryScore N T D) × Option (Evaluation N T D))
      : Type 0 where
    pub evaluation : Evaluation N T D
    pub stored : out.1 ≡ some evaluation
    pub size : length evaluation.twists ≡ length twists
    pub place :
        (best : TrajectoryScore N T D)
        → out.0 ≡ inr best
        → get_elem? evaluation.twists evaluation.best_index ≡ some best

  finish-IsRecord :
      (twists : List W) (st : Search N T D)
      → Records (length twists) st
      → IsRecord twists
          (if fl.lt st.best.total (fl.of_nat 0) then inl st.tracker else inr st.best, st.results)
  finish-IsRecord twists st r = elim (Bool-cases (fl.lt st.best.total (fl.of_nat 0))) [
    | inl none_found ↦ rw none_found (record {
      evaluation = r.evaluation;
      stored = r.stored;
      size = r.size;
      place = λ best e. cc;
    })
    | inr found ↦ rw found (record {
      evaluation = r.evaluation;
      stored = r.stored;
      size = r.size;
      place =
          λ best e. let same_best : st.best ≡ best = cc in r.best_place found ∙ ap some same_best;
    })
  ]

  -- For at most 65536 twists and -1 below 0, whether coreScoringAlgorithm returns or throws: an evaluation that it
  -- records has one score for each twist, and if it returns a score, the best index is its place.
  pub core_scoring_algorithm-IsRecord :
      (blank : T) (twists : List W) (best_index worst_index : ℕ)
      → length twists ≤ 65536
      → fl.lt (minus_one fl) (fl.of_nat 0) ≡ true
      → IsRecord twists (
          core_scoring_algorithm same fl narrow critics generate blank twists
            (some (record { twists = []; best_index = best_index; worst_index = worst_index })))
  unfolding core_scoring_algorithm
  core_scoring_algorithm-IsRecord blank twists best_index worst_index h low =
      let start =
        start_search same fl narrow critics generate blank
          (some (record { twists = []; best_index = best_index; worst_index = worst_index })) in
      let all =
        evaluate_all-Records 0 twists start (omega arith)
          (start-Records blank best_index worst_index low) in
      let none_before : 0 + length twists ≡ length twists = omega arith in
      finish-IsRecord twists (evaluate_all same fl narrow critics generate twists start)
        (rw none_before at all)
