-- ===== src/Oscillation.antt =====
-- nav2_dwb_controller/dwb_critics/src/oscillation.cpp and its header: the critic that forbids a
-- robot to turn back and forth. Time is a count of nanoseconds; what the clock says is an argument.
pub mod Trend
pub mod Critics
mod Tests
use rosnavigation2copy.Prelude.{
  ℕ, Bool, true, false, ◌||◌, ◌&&◌, not, Option, none, some, if◌then◌else◌,
}
use rosnavigation2copy.Prelude.Int.{ℤ, pos, ◌-ℤ◌, ltb_ℤ}
use rosnavigation2copy.Platform.{Floats}

pub data Sign : Type 0 where
  zero positive negative : Sign

pub record CommandTrend : Type 0 where
  pub sign : Sign
  pub positive_only : Bool
  pub negative_only : Bool
  pub enabled : Bool

-- A velocity, and so a pose: x, y and theta.
pub record Twist (D : Type 0) : Type 0 where
  pub x : D
  pub y : D
  pub theta : D

pub record Critic (D : Type 0) : Type 0 where
  pub x_trend : CommandTrend
  pub y_trend : CommandTrend
  pub theta_trend : CommandTrend
  pub oscillation_reset_dist : D
  pub oscillation_reset_dist_sq : D
  pub oscillation_reset_angle : D
  pub x_only_threshold : D
  pub oscillation_reset_time : ℤ
  pub pose : Twist D
  pub prev_stationary_pose : Twist D
  pub prev_reset_time : ℤ

abbrev is_positive : Sign → Bool
is_positive positive = true
is_positive _ = false

abbrev is_negative : Sign → Bool
is_negative negative = true
is_negative _ = false

unfoldable pub reset_trend : CommandTrend → CommandTrend
reset_trend t = record t { sign = zero; positive_only = false; negative_only = false }

-- The constructor of CommandTrend.
unfoldable pub new_trend : CommandTrend
new_trend = record { sign = zero; positive_only = false; negative_only = false; enabled = true }

unfoldable pub disable : CommandTrend → CommandTrend
disable t = record t { enabled = false }

unfoldable pub has_sign_flipped : CommandTrend → Bool
has_sign_flipped t = if not t.enabled then false else t.positive_only || t.negative_only

module _ {D : Type 0} (fl : Floats D) where
  open fl use {add, sub, mul, lt, le, fabs, of_nat}

  abbrev pub below_zero : D → Bool
  below_zero v = lt v (of_nat 0)

  abbrev pub above_zero : D → Bool
  above_zero v = lt (of_nat 0) v

  -- The trend after a command, and whether the sign has flipped.
  unfoldable pub update : D → CommandTrend → CommandTrend × Bool
  update velocity t =
      if not t.enabled
      then (t, false)
      else if below_zero velocity
      then (
        record t {
          negative_only = if is_positive t.sign then true else t.negative_only;
          sign = negative;
        },
        is_positive t.sign,
      )
      else if above_zero velocity
      then (
        record t {
          positive_only = if is_negative t.sign then true else t.positive_only;
          sign = positive;
        },
        is_negative t.sign,
      )
      else (t, false)

  unfoldable pub is_oscillating : D → CommandTrend → Bool
  is_oscillating velocity t =
      if not t.enabled
      then false
      else t.positive_only && below_zero velocity || t.negative_only && above_zero velocity

  unfoldable pub reset : Critic D → Critic D
  reset c = record c {
    x_trend = reset_trend c.x_trend;
    y_trend = reset_trend c.y_trend;
    theta_trend = reset_trend c.theta_trend;
  }

  -- The part of onInit() that sets the state, for the parameters read.
  unfoldable pub on_init : D → D → ℤ → D → D → Critic D → Critic D
  on_init reset_dist reset_angle reset_time x_only_threshold max_vel_y c =
      let c' = record c {
        oscillation_reset_dist = reset_dist;
        oscillation_reset_dist_sq = mul reset_dist reset_dist;
        oscillation_reset_angle = reset_angle;
        oscillation_reset_time = reset_time;
        x_only_threshold = x_only_threshold;
        y_trend =
            if le max_vel_y (of_nat 0) && le (of_nat 0) max_vel_y
            then disable c.y_trend
            else c.y_trend;
      } in
      reset c'

  unfoldable pub prepare : Twist D → Critic D → Critic D × Bool
  prepare pose c = (record c { pose = pose }, true)

  unfoldable pub far_enough : Critic D → Bool
  far_enough c =
      let x_diff = sub c.pose.x c.prev_stationary_pose.x in
      let y_diff = sub c.pose.y c.prev_stationary_pose.y in
      le (of_nat 0) c.oscillation_reset_dist
      && lt c.oscillation_reset_dist_sq (add (mul x_diff x_diff) (mul y_diff y_diff))

  unfoldable pub turned_enough : Critic D → Bool
  turned_enough c =
      le (of_nat 0) c.oscillation_reset_angle
      && lt c.oscillation_reset_angle (fabs (sub c.pose.theta c.prev_stationary_pose.theta))

  unfoldable pub waited_enough : ℤ → Critic D → Bool
  waited_enough now c =
      not (ltb_ℤ c.oscillation_reset_time (pos 0))
      && ltb_ℤ c.oscillation_reset_time (now -ℤ c.prev_reset_time)

  unfoldable pub reset_available : ℤ → Critic D → Bool
  reset_available now c = far_enough c || turned_enough c || waited_enough now c

  unfoldable pub set_oscillation_flags : Twist D → Critic D → Critic D × Bool
  set_oscillation_flags cmd_vel c =
      let (x_trend, x_set) = update cmd_vel.x c.x_trend in
      let (y_trend, y_set) = update cmd_vel.y c.y_trend in
      let (theta_trend, theta_set) = update cmd_vel.theta c.theta_trend in
      if lt c.x_only_threshold (of_nat 0) || le (fabs cmd_vel.x) c.x_only_threshold
      then (
        record c { x_trend = x_trend; y_trend = y_trend; theta_trend = theta_trend },
        x_set || y_set || theta_set,
      )
      else (record c { x_trend = x_trend }, x_set)

  unfoldable pub restricted : Critic D → Bool
  restricted c =
      has_sign_flipped c.x_trend || has_sign_flipped c.y_trend || has_sign_flipped c.theta_trend

  -- The clock is read once at the turn, and again for the reset.
  unfoldable pub debrief : ℤ → ℤ → Twist D → Critic D → Critic D
  debrief now later cmd_vel c =
      let (c1, flag_set) = set_oscillation_flags cmd_vel c in
      let c2 =
        if flag_set
        then record c1 { prev_stationary_pose = c1.pose; prev_reset_time = now }
        else c1 in
      if restricted c2 then if reset_available later c2 then reset c2 else c2 else c2

  -- `none` is the exception "Trajectory is oscillating", and a score is 0.0.
  unfoldable pub score_trajectory : Twist D → Critic D → Option D
  score_trajectory velocity c =
      if is_oscillating velocity.x c.x_trend
        || is_oscillating velocity.y c.y_trend
        || is_oscillating velocity.theta c.theta_trend
      then none
      else some (of_nat 0)
