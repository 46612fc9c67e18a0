-- ===== src/MapGrid/Scoring.antt =====
-- The score of a trajectory: the values of its poses, aggregated, or the first pose that fails.
use rosnavigation2copy.Prelude.{
  ◌+◌, ℕ, ◌*◌, ◌<◌, ◌≡◌, ◌∙◌, refl, ap, ◌⊎◌, inl, inr, Bool, true, false, ◌&&◌, Option-cases, some,
  List, [], ◌∷◌, ◌++◌, arith, length, get_elem?-of_lt, if◌then◌else◌, u32,
}
use rosnavigation2copy.Platform.{Floats}
use rosnavigation2copy.Grid.Index.{index-lt}
use rosnavigation2copy.Costmap.{IsValid, world_to_map, get_index}
use rosnavigation2copy.Costmap.World.{world_to_map-lt}
use rosnavigation2copy.Planner.{Verdict}
use rosnavigation2copy.Planner.Verdict.{legal, illegal}
use rosnavigation2copy.MapGrid.Reason.{hits_obstacle, hits_unreachable_area, goes_off_grid}
use rosnavigation2copy.MapGrid.{
  is_equal, MapGridCritic, Reason, score_pose, get_score, check_value, aggregate, caught,
  start_score, scored_poses, score_poses, score_trajectory,
}

picked :
    {N D : Type 0} (a b : Bool) (c r r' : N) (g g' : D)
    → (if a then illegal c r else if b then illegal c r' else legal g) ≡ legal g'
    → g' ≡ g
picked true b c r r' g g' e = cc
picked false true c r r' g g' e = cc
picked false false c r r' g g' e = cc

module _ {N D : Type 0} (fl : Floats D) (text : Reason → N) where
  -- The check returns the value that it is given.
  legal_same :
      (critic : MapGridCritic N D) (g g' : D) → check_value fl text critic g ≡ legal g' → g' ≡ g
  unfolding check_value
  legal_same critic g g' e =
      picked (critic.stop_on_failure && is_equal fl g critic.obstacle_score)
        (critic.stop_on_failure && is_equal fl g critic.unreachable_score) critic.name
        (text hits_obstacle) (text hits_unreachable_area) g g' e

module _ {N D : Type 0} (fl : Floats D) (text : Reason → N) (critic : MapGridCritic N D) where
  -- The pose has the value `g`, at which the critic does not stop.
  pub record HasValue (pose : D × D) (g : D) : Type 0 where
    pub scored : score_pose fl text critic pose ≡ some (legal g)
    pub checked : check_value fl text critic g ≡ legal g

  -- The pose is off the grid, or has a value at which the critic stops, for that reason.
  pub data Fails (pose : D × D) (critic_name reason : N) : Type 0 where
    off_grid :
        score_pose fl text critic pose ≡ some (illegal critic_name reason)
        → Fails pose critic_name reason
    stopped :
        (g : D)
        → score_pose fl text critic pose ≡ some (legal g)
        → check_value fl text critic g ≡ illegal critic_name reason
        → Fails pose critic_name reason

  pub data HaveValues : List (D × D) → List D → Type 0 where
    none_left : HaveValues [] []
    one_more :
        {pose : D × D} {g : D} {poses : List (D × D)} {gs : List D}
        → HasValue pose g
        → HaveValues poses gs
        → HaveValues (pose ∷ poses) (g ∷ gs)

  abbrev pub total : D → List D → D
  total score [] = score
  total score (g ∷ gs) = total (aggregate fl text critic.aggregation_type score g) gs

  -- Every pose has a value and the result is their aggregate, or some pose fails, the ones before
  -- it have values, and the result is its failure.
  abbrev pub Scores : List (D × D) → D → Verdict N D → Type 0
  Scores poses score result =
      ((gs : List D) × HaveValues poses gs × (result ≡ legal (total score gs)))
      ⊎ ((before : List (D × D)) × (pose : D × D) × (after : List (D × D)) × (gs : List D)
          × (critic_name : N) × (reason : N) × (poses ≡ before ++ (pose ∷ after))
          × HaveValues before gs
          × Fails pose critic_name reason
          × (result ≡ illegal critic_name reason))

  module _ (v : IsValid critic.costmap)
      (full : length critic.cell_values ≡ critic.costmap.size_y * critic.costmap.size_x) where
    get_score-returns :
        (x y : ℕ)
        → x < critic.costmap.size_x
        → y < critic.costmap.size_y
        → (g : D) × (get_score critic x y ≡ some g)
    unfolding get_score get_index
    get_score-returns x y hx hy =
        let here = index-lt critic.costmap.size_x critic.costmap.size_y x y hx hy in
        get_elem?-of_lt critic.cell_values (u32 (y * critic.costmap.size_x + x))
          (omega (arith, v.fits))

    score_pose-legal :
        (x y : D) (cx cy : ℕ) (g : D)
        → world_to_map fl critic.costmap x y ≡ some (cx, cy)
        → get_score critic cx cy ≡ some g
        → score_pose fl text critic (x, y) ≡ some (legal g)
    unfolding score_pose
    score_pose-legal x y cx cy g on e = rw (score_pose, on, e) refl

    score_pose-returns :
        (pose : D × D) → (r : Verdict N D) × (score_pose fl text critic pose ≡ some r)
    unfolding score_pose
    score_pose-returns (x, y) = elim (Option-cases (world_to_map fl critic.costmap x y)) [
      | inl off ↦ (illegal critic.name (text goes_off_grid), rw (score_pose, off) refl)
      | inr ((cx, cy), on) ↦
          let (hx, hy) = world_to_map-lt fl critic.costmap x y cx cy on in
          let (g, e) = get_score-returns cx cy hx hy in (legal g, score_pose-legal x y cx cy g on e)
    ]

    -- The rest of a trajectory, from a pose with a value on.
    more-Scores :
        (pose : D × D) (g : D) (poses : List (D × D)) (score : D) (r : Verdict N D)
        → HasValue pose g
        → Scores poses (aggregate fl text critic.aggregation_type score g) r
        → Scores (pose ∷ poses) score r
    more-Scores pose g poses score r this (inl (gs, all, e)) = inl (g ∷ gs, one_more this all, e)
    more-Scores pose g poses score r this
          (inr (before, p, after, gs, c, reason, split, all, fails, e)) =
        inr (
          pose ∷ before,
          p,
          after,
          g ∷ gs,
          c,
          reason,
          ap (◌∷◌ pose) split,
          one_more this all,
          fails,
          e,
        )

    abbrev Scored : List (D × D) → D → Type 0
    Scored poses score =
        (r : Verdict N D) × (score_poses fl text critic poses score ≡ some r) × Scores poses score r

    failed-Scored :
        (pose : D × D) (poses : List (D × D)) (score : D) (c reason : N)
        → score_poses fl text critic (pose ∷ poses) score ≡ some (illegal c reason)
        → Fails pose c reason
        → Scored (pose ∷ poses) score
    failed-Scored pose poses score c reason e f =
        (illegal c reason, e, inr ([], pose, poses, [], c, reason, refl, none_left, f, refl))

    -- One pose, from what it scores and what the check of the value says.
    checked-Scored :
        (pose : D × D) (poses : List (D × D)) (score g : D) (checked : Verdict N D)
        → score_pose fl text critic pose ≡ some (legal g)
        → check_value fl text critic g ≡ checked
        → ((score' : D) → Scored poses score')
        → Scored (pose ∷ poses) score
    unfolding score_poses caught
    checked-Scored pose poses score g (illegal c reason) e e' rest =
        failed-Scored pose poses score c reason (rw (score_poses, e, e') refl) (stopped g e e')
    checked-Scored pose poses score g (legal g') e e' rest =
        let checked : check_value fl text critic g ≡ legal g =
          e' ∙ ap legal (legal_same fl text critic g g' e') in
        let (r, e'', s) = rest (aggregate fl text critic.aggregation_type score g) in
        (
          r,
          rw (score_poses, e, checked) e'',
          more-Scores pose g poses score r (record { scored = e; checked = checked }) s,
        )

    pose-Scored :
        (pose : D × D) (poses : List (D × D)) (score : D) (r : Verdict N D)
        → score_pose fl text critic pose ≡ some r
        → ((score' : D) → Scored poses score')
        → Scored (pose ∷ poses) score
    unfolding score_poses caught
    pose-Scored pose poses score (illegal c reason) e rest =
        failed-Scored pose poses score c reason (rw (score_poses, e) refl) (off_grid e)
    pose-Scored pose poses score (legal g) e rest = checked-Scored pose poses score g _ e refl rest

    score_poses-Scored : (poses : List (D × D)) (score : D) → Scored poses score
    unfolding score_poses caught
    score_poses-Scored [] score = (legal score, refl, inl ([], none_left, refl))
    score_poses-Scored (pose ∷ poses) score =
        let (r, e) = score_pose-returns pose in
        pose-Scored pose poses score r e (score_poses-Scored poses)

    pub score_trajectory-Scored :
        (poses : List (D × D))
        → (r : Verdict N D) × (score_trajectory fl text critic poses ≡ some r)
          × Scores
              (scored_poses fl text critic poses)
              (start_score fl text critic.aggregation_type)
              r
    unfolding score_trajectory
    score_trajectory-Scored poses = score_poses-Scored (scored_poses fl text critic poses) _
