-- ===== src/MapGrid/Result.antt =====
-- The result of scoreTrajectory for a critic whose map is well formed.
use rosnavigation2copy.Prelude.{
  ◌*◌, ◌≡◌, ◌∙◌, refl, ap, sym, ◌⊎◌, inl, inr, Bool, true, false, ◌&&◌, Option-cases, none, some,
  some_inj, List, ◌∷◌, length, if◌then◌else◌,
}
use mathlib.Core.Bool.{true≢false}
use mathlib.Core.Path.{subst}
use rosnavigation2copy.Prelude.Loops.{>>=-eq-some}
use mathlib.Core.Bool.{true≢false}
use rosnavigation2copy.Platform.{Floats}
use rosnavigation2copy.Costmap.{IsValid, world_to_map}
use rosnavigation2copy.Costmap.World.{world_to_map-lt, get_index-eq}
use rosnavigation2copy.Planner.{Verdict}
use rosnavigation2copy.Planner.Verdict.{legal, illegal}
use rosnavigation2copy.MapGrid.Reason.{hits_obstacle, hits_unreachable_area, goes_off_grid}
use rosnavigation2copy.MapGrid.{
  is_equal, MapGridCritic, Reason, score_pose, get_score, check_value, start_score,
  score_trajectory,
}
use rosnavigation2copy.MapGrid.Scoring.{
  HasValue, HaveValues, Fails, Scores, score_trajectory-Scored,
}
use rosnavigation2copy.MapGrid.Scoring.HaveValues.{none_left, one_more}
use rosnavigation2copy.MapGrid.Scoring.Fails.{off_grid, stopped}
use rosnavigation2copy.MapGrid.Values.{IsAt, IsHarmless, AreAt, FailsFor, IsScore, looked_at}
use rosnavigation2copy.MapGrid.Values.AreAt.{no_pose, next_pose}
use rosnavigation2copy.MapGrid.Values.FailsFor.{outside, obstacle, unreachable}
use rosnavigation2copy.MapGrid.Totals.{started, by_type}

stopping :
    {N D : Type 0} (stop a b : Bool) (c r r' : N) (g g' : D)
    → (if stop && a then illegal c r else if stop && b then illegal c r' else legal g) ≡ legal g'
    → stop ≡ true
    → (a ≡ false) × (b ≡ false)
stopping true true b c r r' g g' e h = cc
stopping true false true c r r' g g' e h = cc
stopping true false false c r r' g g' e h = (refl, refl)
stopping false a b c r r' g g' e h = absurd (true≢false (sym h))

stopped_by :
    {N D : Type 0} (stop a b : Bool) (c r r' : N) (g : D) (c' r'' : N)
    → (if stop && a then illegal c r else if stop && b then illegal c r' else legal g)
      ≡ illegal c' r''
    → (stop ≡ true)
      × (c' ≡ c)
      × (((a ≡ true) × (r'' ≡ r)) ⊎ ((a ≡ false) × (b ≡ true) × (r'' ≡ r')))
stopped_by true true b c r r' g c' r'' e = (refl, cc, inl (refl, cc))
stopped_by true false true c r r' g c' r'' e = (refl, cc, inr (refl, refl, cc))
stopped_by true false false c r r' g c' r'' e = cc
stopped_by false a b c r r' g c' r'' e = cc

module _ {N D : Type 0} (fl : Floats D) (text : Reason → N) (critic : MapGridCritic N D)
    (v : IsValid critic.costmap) where
  -- What a pose gives: it is off the grid, or has the value of its cell.
  pose-cases :
      (pose : D × D) (r : Verdict N D)
      → score_pose fl text critic pose ≡ some r
      → ((world_to_map fl critic.costmap pose.0 pose.1 ≡ none)
          × (r ≡ illegal critic.name (text goes_off_grid)))
        ⊎ ((g : D) × IsAt fl text critic pose g × (r ≡ legal g))
  unfolding score_pose get_score
  pose-cases (x, y) r e = elim (Option-cases (world_to_map fl critic.costmap x y)) [
    | inl off ↦
        let e1 : some (illegal critic.name (text goes_off_grid)) ≡ some r =
          rw (score_pose, off) at e in
        inl (off, some_inj (sym e1))
    | inr ((cx, cy), on) ↦
        let (hx, hy) = world_to_map-lt fl critic.costmap x y cx cy on in
        let (g, here, same) =
          >>=-eq-some (get_score critic cx cy) (λ score. some (legal score))
            (rw (score_pose, on) at e) in
        inr (
          g,
          record {
            x = cx;
            y = cy;
            cell = on;
            value = rw (sym (get_index-eq critic.costmap cx cy v hx hy)) here;
          },
          some_inj (sym same),
        )
  ]

  legal-IsAt :
      (pose : D × D) (g : D)
      → score_pose fl text critic pose ≡ some (legal g)
      → IsAt fl text critic pose g
  legal-IsAt pose g e = elim (pose-cases pose (legal g) e) [
    | inl (off, e') ↦ cc
    | inr (g', here, e') ↦ let same : g' ≡ g = cc in subst (IsAt fl text critic pose) same here
  ]

  HasValue-IsHarmless :
      (pose : D × D) (g : D) → HasValue fl text critic pose g → IsHarmless fl text critic g
  unfolding check_value
  HasValue-IsHarmless pose g h =
      stopping critic.stop_on_failure (is_equal fl g critic.obstacle_score)
        (is_equal fl g critic.unreachable_score) critic.name (text hits_obstacle)
        (text hits_unreachable_area) g g h.checked

  HaveValues-AreAt :
      (poses : List (D × D)) (gs : List D)
      → HaveValues fl text critic poses gs
      → AreAt fl text critic poses gs
  HaveValues-AreAt _ _ none_left = no_pose
  HaveValues-AreAt (pose ∷ poses) (g ∷ gs) (one_more h rest) =
      next_pose (legal-IsAt pose g h.scored) (HasValue-IsHarmless pose g h)
        (HaveValues-AreAt poses gs rest)

  Fails-FailsFor :
      (pose : D × D) (c r : N)
      → Fails fl text critic pose c r
      → (c ≡ critic.name)
        × ((reason : Reason) × (r ≡ text reason) × FailsFor fl text critic pose reason)
  unfolding check_value
  Fails-FailsFor pose c r (off_grid e) = elim (pose-cases pose (illegal c r) e) [
    | inl (off, e') ↦ (cc, (goes_off_grid, cc, outside off))
    | inr (g, here, e') ↦ cc
  ]
  Fails-FailsFor pose c r (stopped g e e') =
      let here = legal-IsAt pose g e in
      let (stop, name, why) =
        stopped_by critic.stop_on_failure (is_equal fl g critic.obstacle_score)
          (is_equal fl g critic.unreachable_score) critic.name (text hits_obstacle)
          (text hits_unreachable_area) g c r e' in
      elim why [
        | inl (hit, same) ↦ (name, (hits_obstacle, same, obstacle g here stop hit))
        | inr (free, hit, same) ↦
            (name, (hits_unreachable_area, same, unreachable g here stop free hit))
      ]

Scores-IsScore :
    {N D : Type 0} (fl : Floats D) (text : Reason → N) (critic : MapGridCritic N D)
    → IsValid critic.costmap
    → (poses : List (D × D)) (r : Verdict N D)
    → Scores fl text critic poses (start_score fl text critic.aggregation_type) r
    → IsScore fl text critic poses r
Scores-IsScore fl text critic v poses r (inl (gs, all, e)) = inl (
  gs,
  HaveValues-AreAt fl text critic v poses gs all,
  e ∙ ap legal (started fl text critic critic.aggregation_type gs refl),
)
Scores-IsScore fl text critic v poses r
      (inr (before, pose, after, gs, c, why, split, all, fails, e)) =
    let (name, (reason, same, f)) = Fails-FailsFor fl text critic v pose c why fails in
    inr (
      before,
      pose,
      after,
      gs,
      reason,
      split,
      HaveValues-AreAt fl text critic v before gs all,
      f,
      e ∙ ap (λ n. illegal n why) name ∙ ap (illegal critic.name) same,
    )

-- For a critic whose map is well formed and has a value for each cell, a trajectory is scored, and
-- never with a fault. Where every pose that counts is in a cell, and its value is not one that
-- fails, the score is their sum, the last of them, or the product of the values up to the first
-- that makes it 0 or less, that one included. Otherwise the result is the failure of the first pose that fails:
-- it is off the grid, or the critic stops on failure and its value marks an obstacle, or a cell that
-- cannot be reached. All poses count, but the last alone for `last` with no stop on a failure.
pub score_trajectory-Scores :
    {N D : Type 0} (fl : Floats D) (text : Reason → N) (critic : MapGridCritic N D)
    → IsValid critic.costmap
    → length critic.cell_values ≡ critic.costmap.size_y * critic.costmap.size_x
    → (poses : List (D × D))
    → (r : Verdict N D) × (score_trajectory fl text critic poses ≡ some r)
      × IsScore fl text critic (looked_at critic.aggregation_type critic.stop_on_failure poses) r
score_trajectory-Scores {N} {D} fl text critic v full poses =
    let (r, e, scored) = score_trajectory-Scored fl text critic v full poses in
    (
      r,
      e,
      subst (λ ps. IsScore fl text critic ps r)
          (by_type fl text critic critic.aggregation_type poses refl)
          (Scores-IsScore fl text critic v _ r scored),
    )
