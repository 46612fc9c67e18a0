-- ===== src/Planner.antt =====
-- nav2_dwb_controller/dwb_core/src/dwb_core.cpp and illegal_trajectory_tracker.cpp: the choice of the
-- best trajectory. The generator gives the twists that it goes through, as a list, and the trajectory
-- of each; a critic keeps its state while it scores. `narrow` rounds a double to float32, which the
-- fields of the messages are. Names and reasons are strings, of any type with a test of equality.
pub mod Scores
pub mod Choice
pub mod Records
mod Tests
use rosnavigation2copy.Prelude.{
  ℕ, ◌+◌, ◌-◌, ◌%◌, Bool, true, false, ◌&&◌, ◌||◌, Option, none, some, ◌⊎◌, inl, inr, List, [], ◌∷◌,
  ◌++◌, length, u32, if◌then◌else◌,
}
use rosnavigation2copy.Platform.{Floats}
use mathlib.Core.Option

-- What a call returns, or an IllegalTrajectoryException with its critic and its reason.
pub data Verdict {ℓ} (N : Type 0) (A : Type ℓ) : Type ℓ where
  legal : A → Verdict N A
  illegal : N → N → Verdict N A

pub record TrajectoryCritic (N T D : Type 0) : Type 0 where
  pub name : N
  pub scale : D
  pub score : T → Verdict N D

pub record CriticScore (N D : Type 0) : Type 0 where
  pub name : N
  pub raw_score : D
  pub scale : D

pub record TrajectoryScore (N T D : Type 0) : Type 0 where
  pub traj : T
  pub scores : List (CriticScore N D)
  pub total : D

pub record Evaluation (N T D : Type 0) : Type 0 where
  pub twists : List (TrajectoryScore N T D)
  pub best_index : ℕ
  pub worst_index : ℕ

-- The std::map of counts gives each critic and reason its count, 0 where it has no entry.
pub record IllegalTrajectoryTracker (N : Type 0) : Type 0 where
  pub counts : N → N → ℕ
  pub legal_count : ℕ
  pub illegal_count : ℕ

-- The variables of coreScoringAlgorithm.
pub record Search (N T D : Type 0) : Type 0 where
  pub best : TrajectoryScore N T D
  pub worst : TrajectoryScore N T D
  pub tracker : IllegalTrajectoryTracker N
  pub results : Option (Evaluation N T D)

module _ {N : Type 0} where
  abbrev pub new_tracker : IllegalTrajectoryTracker N
  new_tracker = record { counts = λ c r. 0; legal_count = 0; illegal_count = 0 }

  unfoldable pub add_legal_trajectory : IllegalTrajectoryTracker N → IllegalTrajectoryTracker N
  add_legal_trajectory t = record t { legal_count = u32 (t.legal_count + 1) }

module _ {N : Type 0} (same : N → N → Bool) where
  unfoldable pub add_illegal_trajectory :
      N → N → IllegalTrajectoryTracker N → IllegalTrajectoryTracker N
  add_illegal_trajectory critic reason t = record t {
    counts = λ c r. if same c critic && same r reason then u32 (t.counts c r + 1) else t.counts c r;
    illegal_count = u32 (t.illegal_count + 1);
  }

module _ {D : Type 0} (fl : Floats D) where
  open fl use {sub, le, of_nat}

  -- scale == 0.0
  abbrev pub is_zero : D → Bool
  is_zero x = le x (of_nat 0) && le (of_nat 0) x

  abbrev pub minus_one : D
  minus_one = sub (of_nat 0) (of_nat 1)

  abbrev pub unscored : {N T : Type 0} → T → TrajectoryScore N T D
  unscored t = record { traj = t; scores = []; total = of_nat 0 }

module _ {N T D : Type 0} (fl : Floats D) (narrow : D → D) where
  open fl use {add, sub, mul, lt, le, of_nat}

  -- The score so far with the score of one more critic.
  unfoldable pub add_score :
      TrajectoryCritic N T D → D → TrajectoryScore N T D → TrajectoryScore N T D
  add_score c raw s = record s {
    scores =
        s.scores ++ (record { name = c.name; raw_score = narrow raw; scale = narrow c.scale } ∷ []);
    total = narrow (add s.total (mul raw (narrow c.scale)));
  }

  -- A critic of scale 0 is listed and not asked.
  unfoldable pub skip_score : TrajectoryCritic N T D → TrajectoryScore N T D → TrajectoryScore N T D
  skip_score c s = record s {
    scores =
        s.scores ++ (record { name = c.name; raw_score = of_nat 0; scale = narrow c.scale } ∷ []);
  }

  -- The loop of scoreTrajectory.
  unfoldable pub score_critics :
      D → List (TrajectoryCritic N T D) → TrajectoryScore N T D → Verdict N (TrajectoryScore N T D)
  score_critics best_score [] s = legal s
  score_critics best_score (c ∷ critics) s =
      let skipped = score_critics best_score critics (skip_score c s) in
      let asked = elim (c.score s.traj) as (λ v. Verdict N (TrajectoryScore N T D)) [
        | illegal critic reason ↦ illegal critic reason
        | legal raw ↦
            let s' = add_score c raw s in
            let rest = score_critics best_score critics s' in
            if lt (of_nat 0) best_score && lt best_score s'.total then legal s' else rest
      ] in
      if is_zero fl (narrow c.scale) then skipped else asked

  unfoldable pub score_trajectory :
      List (TrajectoryCritic N T D) → T → D → Verdict N (TrajectoryScore N T D)
  score_trajectory critics t best_score = score_critics best_score critics (unscored fl t)

  -- results->twists.push_back(score), and the indices if the score is a new best or worst.
  unfoldable pub record_score :
      Bool → Bool → TrajectoryScore N T D → Evaluation N T D → Evaluation N T D
  record_score better worse s e =
      let index = length e.twists % 65536 in
      record {
        twists = e.twists ++ (s ∷ []);
        best_index = if better then index else e.best_index;
        worst_index = if worse then index else e.worst_index;
      }

  -- A trajectory that has a score.
  unfoldable pub accept : TrajectoryScore N T D → Search N T D → Search N T D
  accept s st =
      let better = lt st.best.total (of_nat 0) || lt s.total st.best.total in
      let worse = lt st.worst.total (of_nat 0) || lt st.worst.total s.total in
      record {
        best = if better then s else st.best;
        worst = if worse then s else st.worst;
        tracker = add_legal_trajectory st.tracker;
        results = Option.map (record_score better worse s) st.results;
      }

  -- A trajectory that a critic refuses.
  unfoldable pub reject : (N → N → Bool) → T → N → N → Search N T D → Search N T D
  reject same t critic reason st =
      let failed : TrajectoryScore N T D = record {
        traj = t;
        scores = record { name = critic; raw_score = minus_one fl; scale = of_nat 0 } ∷ [];
        total = minus_one fl;
      } in
      record st {
        tracker = add_illegal_trajectory same critic reason st.tracker;
        results = Option.map (record_score false false failed) st.results;
      }

module _ {N T D W : Type 0} (same : N → N → Bool) (fl : Floats D) (narrow : D → D)
    (critics : List (TrajectoryCritic N T D)) (generate : W → T) where
  open fl use {lt, of_nat}

  -- One round of the loop of coreScoringAlgorithm.
  unfoldable pub evaluate : T → Search N T D → Search N T D
  evaluate t st = elim (score_trajectory fl narrow critics t st.best.total) [
    | legal s ↦ accept fl narrow s st
    | illegal critic reason ↦ reject fl narrow same t critic reason st
  ]

  unfoldable pub evaluate_all : List W → Search N T D → Search N T D
  evaluate_all [] st = st
  evaluate_all (w ∷ twists) st = evaluate_all twists (evaluate (generate w) st)

  -- `blank` is a trajectory message as it is constructed.
  unfoldable pub start_search : T → Option (Evaluation N T D) → Search N T D
  start_search blank results =
      let none_yet : TrajectoryScore N T D = record (unscored fl blank) { total = minus_one fl } in
      record { best = none_yet; worst = none_yet; tracker = new_tracker; results = results }

  -- It throws the tracker, or returns the best score; the evaluation is an output of both.
  unfoldable pub core_scoring_algorithm :
      T
      → List W
      → Option (Evaluation N T D)
      → (IllegalTrajectoryTracker N ⊎ TrajectoryScore N T D) × Option (Evaluation N T D)
  core_scoring_algorithm blank twists results =
      let st = evaluate_all twists (start_search blank results) in
      (if lt st.best.total (of_nat 0) then inl st.tracker else inr st.best, st.results)
