-- ===== src/Oscillation/Critics.antt =====
-- What the critic refuses, and when it forgets.
use rosnavigation2copy.Prelude.{◌≡◌, refl, Bool, true, false, ◌||◌, not, none, some, arith}
use rosnavigation2copy.Prelude.{Bool-cases, inl, inr, ◌⊎◌}
use rosnavigation2copy.Prelude.Int.{ℤ, pos, ltb_ℤ, ◌-ℤ◌}
use rosnavigation2copy.Platform.{Floats}
use rosnavigation2copy.Oscillation.{positive, negative, CommandTrend, reset_trend, Twist, Critic}
use rosnavigation2copy.Oscillation.{
  update, is_oscillating, has_sign_flipped, below_zero, above_zero, reset, debrief, restricted,
  reset_available, set_oscillation_flags, far_enough, turned_enough, waited_enough,
  score_trajectory,
}

module _ {D : Type 0} (fl : Floats D) where
  open fl use {of_nat}

  -- A reset critic accepts every trajectory.
  pub score_trajectory-reset :
      (velocity : Twist D) (c : Critic D)
      → score_trajectory fl velocity (reset fl c) ≡ some (of_nat 0)
  unfolding score_trajectory is_oscillating reset reset_trend
  score_trajectory-reset velocity c = ground arith

  -- The command has turned one axis back: it was moving one way, and the command is the other way.
  abbrev pub TurnsBack : D → CommandTrend → Type 0
  TurnsBack v t =
      ((t.sign ≡ positive) × (below_zero fl v ≡ true))
      ⊎ ((t.sign ≡ negative) × (below_zero fl v ≡ false) × (above_zero fl v ≡ true))

  -- The velocity `w` is against `v`: one is negative, and the other positive.
  abbrev pub Against : D → D → Type 0
  Against w v =
      ((below_zero fl v ≡ true) × (above_zero fl w ≡ true))
      ⊎ ((below_zero fl v ≡ false) × (above_zero fl v ≡ true) × (below_zero fl w ≡ true))

  is_oscillating-update :
      (v w : D) (t : CommandTrend)
      → t.enabled ≡ true
      → TurnsBack v t
      → Against w v
      → (is_oscillating fl w (update fl v t).0 ≡ true)
        × (has_sign_flipped (update fl v t).0 ≡ true)
        × ((update fl v t).1 ≡ true)
  unfolding is_oscillating has_sign_flipped update
  is_oscillating-update v w t on (inl h) a = ground arith
  is_oscillating-update v w t on (inr h) a = ground arith

  -- Facts of the critic's numbers: a finite pose less itself is 0, the square of the reset distance
  -- and a reset angle that is used are not below 0, and neither is anything made of zeros.
  pub record AtRest (c : Critic D) : Type 0 where
    pub x : fl.sub c.pose.x c.pose.x ≡ of_nat 0
    pub y : fl.sub c.pose.y c.pose.y ≡ of_nat 0
    pub theta : fl.sub c.pose.theta c.pose.theta ≡ of_nat 0
    pub zeros : fl.add (fl.mul (of_nat 0) (of_nat 0)) (fl.mul (of_nat 0) (of_nat 0)) ≡ of_nat 0
    pub fabs_zero : fl.fabs (of_nat 0) ≡ of_nat 0
    pub dist_sq : fl.lt c.oscillation_reset_dist_sq (of_nat 0) ≡ false
    pub angle :
        fl.le (of_nat 0) c.oscillation_reset_angle ≡ true
        → fl.lt c.oscillation_reset_angle (of_nat 0) ≡ false

  abbrev all_axes : Twist D → Critic D → Bool
  all_axes cmd c = fl.lt c.x_only_threshold (of_nat 0) || fl.le (fl.fabs cmd.x) c.x_only_threshold

  abbrev marked : ℤ → Critic D → Critic D
  marked now c = record c { prev_stationary_pose = c.pose; prev_reset_time = now }

  far_enough-marked : (now : ℤ) (c : Critic D) → AtRest c → far_enough fl (marked now c) ≡ false
  unfolding far_enough
  far_enough-marked now c r = rw (r.x, r.y, r.zeros, r.dist_sq) (ground arith)

  turned_enough-marked :
      (now : ℤ) (c : Critic D) → AtRest c → turned_enough fl (marked now c) ≡ false
  unfolding turned_enough
  turned_enough-marked now c r = rw (r.theta, r.fabs_zero) (ground (arith, r.angle))

  -- The time of a reset is not used, or has not passed between the two readings of the clock.
  abbrev pub Soon : ℤ → ℤ → Critic D → Type 0
  Soon now later c =
      (ltb_ℤ c.oscillation_reset_time (pos 0)
        || not (ltb_ℤ c.oscillation_reset_time (later -ℤ now)))
      ≡ true

  waited_enough-marked :
      (now later : ℤ) (c : Critic D)
      → Soon now later c
      → waited_enough fl later (marked now c) ≡ false
  unfolding waited_enough
  waited_enough-marked now later c h = ground arith

  reset_available-marked :
      (now later : ℤ) (c : Critic D)
      → AtRest c
      → Soon now later c
      → reset_available fl later (marked now c) ≡ false
  unfolding reset_available
  reset_available-marked now later c r h =
      rw
        (
          far_enough-marked now c r,
          turned_enough-marked now c r,
          waited_enough-marked now later c h,
        )
        refl

  set_oscillation_flags-time :
      (cmd : Twist D) (c : Critic D)
      → (set_oscillation_flags fl cmd c).0.oscillation_reset_time ≡ c.oscillation_reset_time
  unfolding set_oscillation_flags
  set_oscillation_flags-time cmd c = elim (Bool-cases (all_axes cmd c)) [
    | inl e ↦ rw e refl
    | inr e ↦ rw e refl
  ]

  set_oscillation_flags-AtRest :
      (cmd : Twist D) (c : Critic D) → AtRest c → AtRest (set_oscillation_flags fl cmd c).0
  unfolding set_oscillation_flags
  set_oscillation_flags-AtRest cmd c r = elim (Bool-cases (all_axes cmd c)) [
    | inl e ↦ rw e (same r)
    | inr e ↦ rw e (same r)
  ]
    where
      same :
          {x y theta : CommandTrend}
          → AtRest c
          → AtRest (record c { x_trend = x; y_trend = y; theta_trend = theta })
      same r = record {
        x = r.x;
        y = r.y;
        theta = r.theta;
        zeros = r.zeros;
        fabs_zero = r.fabs_zero;
        dist_sq = r.dist_sq;
        angle = r.angle;
      }

  set_oscillation_flags-update :
      (cmd : Twist D) (c : Critic D)
      → (update fl cmd.x c.x_trend).1 ≡ true
      → ((set_oscillation_flags fl cmd c).0.x_trend ≡ (update fl cmd.x c.x_trend).0)
        × ((set_oscillation_flags fl cmd c).1 ≡ true)
  unfolding set_oscillation_flags
  set_oscillation_flags-update cmd c h = elim (Bool-cases (all_axes cmd c)) [
    | inl e ↦ rw (e, h) (refl, refl)
    | inr e ↦ rw (e, h) (refl, refl)
  ]

  -- In the cycle in which a turn is noticed no reset is possible.
  debrief-marked :
      (now later : ℤ) (cmd : Twist D) (c : Critic D)
      → AtRest c
      → Soon now later c
      → (set_oscillation_flags fl cmd c).1 ≡ true
      → debrief fl now later cmd c ≡ marked now (set_oscillation_flags fl cmd c).0
  unfolding debrief
  debrief-marked now later cmd c r soon h =
      let c1 = (set_oscillation_flags fl cmd c).0 in
      let same : Soon now later c1 = rw (set_oscillation_flags-time cmd c) soon in
      let shut = reset_available-marked now later c1 (set_oscillation_flags-AtRest cmd c r) same in
      rw (h, shut)
        (elim (Bool-cases (restricted fl (marked now c1))) [
          | inl e ↦ rw e refl
          | inr e ↦ rw e refl
        ])

  -- For a critic at rest whose x axis is enabled, with no time for a reset between the two readings
  -- of the clock: after a command against the last x direction, a trajectory whose x velocity is
  -- against that command is refused.
  pub score_trajectory-debrief :
      (now later : ℤ) (cmd w : Twist D) (c : Critic D)
      → AtRest c
      → Soon now later c
      → c.x_trend.enabled ≡ true
      → TurnsBack cmd.x c.x_trend
      → Against w.x cmd.x
      → score_trajectory fl w (debrief fl now later cmd c) ≡ none
  unfolding score_trajectory
  score_trajectory-debrief now later cmd w c r soon on b a =
      let (bad, _, flag) = is_oscillating-update cmd.x w.x c.x_trend on b a in
      let (kept, set) = set_oscillation_flags-update cmd c flag in
      rw (debrief-marked now later cmd c r soon set, kept, bad) refl

  -- If no axis turned in this cycle, some axis is restricted, and the robot has moved, turned or
  -- waited enough, then every trajectory is accepted again.
  pub score_trajectory-debrief_reset :
      (now later : ℤ) (cmd w : Twist D) (c : Critic D)
      → (set_oscillation_flags fl cmd c).1 ≡ false
      → restricted fl (set_oscillation_flags fl cmd c).0 ≡ true
      → reset_available fl later (set_oscillation_flags fl cmd c).0 ≡ true
      → score_trajectory fl w (debrief fl now later cmd c) ≡ some (of_nat 0)
  unfolding debrief
  score_trajectory-debrief_reset now later cmd w c h k a =
      rw (h, k, a) (score_trajectory-reset w (set_oscillation_flags fl cmd c).0)
