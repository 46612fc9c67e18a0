-- ===== src/Oscillation/Tests.antt =====
-- Runs of the critic over integers in place of doubles, and the theorems at them.
use rosnavigation2copy.Prelude.{◌≡◌, refl, none, some, [], ◌∷◌, inl}
use rosnavigation2copy.Prelude.Int.{ℤ, pos, negsuc, ◌+ℤ◌, ◌-ℤ◌, ◌*ℤ◌}
use rosnavigation2copy.Platform.{integers}
use rosnavigation2copy.Oscillation.{
  reset_trend, new_trend, Twist, Critic, update, is_oscillating, reset, debrief, restricted,
  has_sign_flipped, reset_available, far_enough, turned_enough, waited_enough,
  set_oscillation_flags, score_trajectory,
}
use rosnavigation2copy.Oscillation.Trend.{run, sign_of, moves, falls, rises, run-reset_trend}
use rosnavigation2copy.Oscillation.Critics.{
  AtRest, score_trajectory-reset, score_trajectory-debrief,
}
use mathlib.Core.List.{map}

abbrev home : Twist ℤ
home = record { x = pos 0; y = pos 0; theta = pos 0 }

abbrev forth : Twist ℤ
forth = record { x = pos 2; y = pos 0; theta = pos 0 }

abbrev back : Twist ℤ
back = record { x = negsuc 1; y = pos 0; theta = pos 0 }

abbrev critic : Critic ℤ
critic = record {
  x_trend = new_trend;
  y_trend = new_trend;
  theta_trend = new_trend;
  oscillation_reset_dist = pos 1;
  oscillation_reset_dist_sq = pos 1;
  oscillation_reset_angle = pos 1;
  x_only_threshold = pos 0;
  oscillation_reset_time = pos 5;
  pose = home;
  prev_stationary_pose = home;
  prev_reset_time = pos 0;
}

abbrev moving : Critic ℤ
moving = debrief integers (pos 1) (pos 1) forth critic

abbrev turned : Critic ℤ
turned = debrief integers (pos 2) (pos 3) back moving

-- After forth and back, forth is refused, back is not, and after a long wait neither is.
refused : score_trajectory integers forth turned ≡ none
unfolding score_trajectory debrief set_oscillation_flags update is_oscillating restricted
    has_sign_flipped reset_available far_enough turned_enough waited_enough new_trend reset
    reset_trend ◌+ℤ◌ ◌-ℤ◌ ◌*ℤ◌
refused = refl

accepted : score_trajectory integers back turned ≡ some (pos 0)
unfolding score_trajectory debrief set_oscillation_flags update is_oscillating restricted
    has_sign_flipped reset_available far_enough turned_enough waited_enough new_trend reset
    reset_trend ◌+ℤ◌ ◌-ℤ◌ ◌*ℤ◌
accepted = refl

moving-AtRest : AtRest integers moving
unfolding debrief set_oscillation_flags update is_oscillating restricted has_sign_flipped
    reset_available far_enough turned_enough waited_enough new_trend reset reset_trend ◌+ℤ◌ ◌-ℤ◌
    ◌*ℤ◌
moving-AtRest = record {
  x = refl;
  y = refl;
  theta = refl;
  zeros = refl;
  fabs_zero = refl;
  dist_sq = refl;
  angle = λ h. refl;
}

run-reset_trend_example :
    let vs = pos 2 ∷ pos 0 ∷ negsuc 1 ∷ [] in
    let t' = run integers vs (reset_trend new_trend) in
    (t'.negative_only ≡ falls (moves (map (sign_of integers) vs)))
    × (t'.positive_only ≡ rises (moves (map (sign_of integers) vs)))
unfolding new_trend
run-reset_trend_example = run-reset_trend integers (pos 2 ∷ pos 0 ∷ negsuc 1 ∷ []) new_trend refl

score_trajectory-reset_example :
    score_trajectory integers forth (reset integers turned) ≡ some (pos 0)
score_trajectory-reset_example = score_trajectory-reset integers forth turned

score_trajectory-debrief_example :
    score_trajectory integers forth (debrief integers (pos 2) (pos 3) back moving) ≡ none
unfolding debrief set_oscillation_flags update restricted has_sign_flipped new_trend ◌+ℤ◌ ◌-ℤ◌ ◌*ℤ◌
score_trajectory-debrief_example =
    score_trajectory-debrief integers (pos 2) (pos 3) back forth moving moving-AtRest refl refl
      (inl (refl, refl)) (inl (refl, refl))
