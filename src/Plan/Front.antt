-- ===== src/Plan/Front.antt =====
-- transformGlobalPlan against a plain description of the two plans.
use rosnavigation2copy.Prelude.{
  ℕ, zero, suc, ◌-◌, ◌≤◌, ◌≡◌, refl, sym, ap, ◌∙◌, Bool, true, false, not, some, inl, inr, List, [],
  ◌∷◌, ◌++◌, map, length, length-map, take, drop, leb, ◌==◌, arith, Bool-cases, if◌then◌else◌,
}
use mathlib.Core.List.{append-nil, append_assoc}
use rosnavigation2copy.Platform.{Floats}
use rosnavigation2copy.Plan.{
  Pose2D, get_square_distance, select_poses, prune_plans, prune_if, check_poses, transform_from,
  dist_threshold, transform_global_plan,
}

module _ {A : Type 0} where
  -- The list from its first element of which the test holds.
  abbrev pub drop_until : (A → Bool) → List A → List A
  drop_until test [] = []
  drop_until test (x ∷ xs) = if test x then x ∷ xs else drop_until test xs

  -- The list up to its first element of which the test holds, with that one.
  abbrev pub take_through : (A → Bool) → List A → List A
  take_through test [] = []
  take_through test (x ∷ xs) = if test x then x ∷ [] else x ∷ take_through test xs

  length-drop_until : (test : A → Bool) (xs : List A) → length (drop_until test xs) ≤ length xs
  length-drop_until test [] = omega arith
  length-drop_until test (x ∷ xs) = elim (Bool-cases (test x)) [
    | inl holds ↦ rw holds (omega arith)
    | inr fails ↦ rw fails (omega (arith, length-drop_until test xs))
  ]

  length-take_through : (test : A → Bool) (xs : List A) → length (take_through test xs) ≤ length xs
  length-take_through test [] = omega arith
  length-take_through test (x ∷ xs) = elim (Bool-cases (test x)) [
    | inl holds ↦ rw holds (omega arith)
    | inr fails ↦ rw fails (omega (arith, length-take_through test xs))
  ]

  drop_until-drop :
      (test : A → Bool) (xs : List A)
      → drop_until test xs ≡ drop (length xs - length (drop_until test xs)) xs
  drop_until-drop test [] = refl
  drop_until-drop test (x ∷ xs) = elim (Bool-cases (test x)) [
    | inl holds ↦ let e : suc (length xs) - suc (length xs) ≡ 0 = omega arith in rw (holds, e) refl
    | inr fails ↦
        let e : suc (length xs) - length (drop_until test xs)
            ≡ suc (length xs - length (drop_until test xs)) =
          omega (arith, length-drop_until test xs) in
        rw (fails, e) (drop_until-drop test xs)
  ]

  take_through-take :
      (test : A → Bool) (xs : List A)
      → take_through test xs ≡ take (length (take_through test xs)) xs
  take_through-take test [] = refl
  take_through-take test (x ∷ xs) = elim (Bool-cases (test x)) [
    | inl holds ↦ rw holds refl
    | inr fails ↦ rw fails (ap (◌∷◌ x) (take_through-take test xs))
  ]

  take_nil : (n : ℕ) → take {A = A} n [] ≡ []
  take_nil zero = refl
  take_nil (suc n) = refl

  drop-take : (d n : ℕ) (xs : List A) → drop d (take n xs) ≡ take (n - d) (drop d xs)
  drop-take zero n xs = let e : n - 0 ≡ n = omega arith in rw e refl
  drop-take (suc d) zero xs = let e : 0 - suc d ≡ 0 = omega arith in rw e refl
  drop-take (suc d) (suc n) [] = sym (take_nil (suc n - suc d))
  drop-take (suc d) (suc n) (x ∷ xs) =
      let e : suc n - suc d ≡ n - d = omega arith in rw e (drop-take d n xs)

drop-map : {A B : Type 0} (f : A → B) (d : ℕ) (xs : List A) → drop d (map f xs) ≡ map f (drop d xs)
drop-map f zero xs = refl
drop-map f (suc d) [] = refl
drop-map f (suc d) (x ∷ xs) = drop-map f d xs

module _ {D : Type 0} (fl : Floats D) (move : Pose2D D → Pose2D D) (robot : Pose2D D) where
  -- Farther from the robot than the threshold, whose square is given.
  abbrev pub is_far : D → Pose2D D → Bool
  is_far limit p = fl.lt limit (get_square_distance fl robot p)

  abbrev pub is_near : D → Pose2D D → Bool
  is_near limit p = fl.lt (get_square_distance fl robot p) limit

  -- The poses from the first that is not far to the next that is.
  abbrev pub selected : D → List (Pose2D D) → List (Pose2D D)
  selected limit poses =
      map move (take_through (is_far limit) (drop_until (λ p. not (is_far limit p)) poses))

  select_poses-append :
      (limit : D) (poses : List (Pose2D D)) (q : Pose2D D) (plan : List (Pose2D D))
      → select_poses fl robot limit move poses (q ∷ plan)
        ≡ (q ∷ plan) ++ map move (take_through (is_far limit) poses)
  unfolding select_poses
  select_poses-append limit [] q plan = ap (◌∷◌ q) (sym (append-nil plan))
  select_poses-append limit (p ∷ poses) q plan = elim (Bool-cases (is_far limit p)) [
    | inl far ↦ let more : (suc (length plan) == 0) ≡ false = ground arith in rw (far, more) refl
    | inr close ↦ rw close (
        select_poses-append limit poses q (plan ++ (move p ∷ []))
        ∙ ap (◌∷◌ q) (append_assoc plan _ _))
  ]

  select_poses-eq :
      (limit : D) (poses : List (Pose2D D))
      → select_poses fl robot limit move poses [] ≡ selected limit poses
  unfolding select_poses
  select_poses-eq limit [] = refl
  select_poses-eq limit (p ∷ poses) = elim (Bool-cases (is_far limit p)) [
    | inl far ↦ rw far (select_poses-eq limit poses)
    | inr close ↦ rw (close, close) (select_poses-append limit poses (move p) [])
  ]

  length-selected :
      (limit : D) (poses : List (Pose2D D)) → length (selected limit poses) ≤ length poses
  length-selected limit poses =
      let inside = λ (p : Pose2D D). not (is_far limit p) in
      omega (
        arith,
        length-map (take_through (is_far limit) (drop_until inside poses)) move,
        length-take_through (is_far limit) (drop_until inside poses),
        length-drop_until inside poses,
      )

  -- What is left of a plan, and how many poses are erased from it.
  abbrev pub kept : D → List (Pose2D D) → List (Pose2D D)
  kept limit plan = drop_until (is_near limit) plan

  abbrev pub erased : D → List (Pose2D D) → ℕ
  erased limit plan = length plan - length (kept limit plan)

  prune_plans-eq :
      (limit : D) (plan global_plan : List (Pose2D D))
      → length plan ≤ length global_plan
      → prune_plans fl robot limit plan global_plan
        ≡ some (kept limit plan, drop (erased limit plan) global_plan)
  unfolding prune_plans
  prune_plans-eq limit [] global_plan h = refl
  prune_plans-eq limit (w ∷ plan) [] h = absurd (omega arith)
  prune_plans-eq limit (w ∷ plan) (g ∷ global_plan) h = elim (Bool-cases (is_near limit w)) [
    | inl near ↦
        let e : suc (length plan) - suc (length plan) ≡ 0 = omega arith in rw (near, e) refl
    | inr behind ↦
        let e : suc (length plan) - length (kept limit plan) ≡ suc (erased limit plan) =
          omega (arith, length-drop_until (is_near limit) plan) in
        rw (behind, e) (prune_plans-eq limit plan global_plan (omega arith))
  ]

  -- With pruning, no assertion fails and nothing is erased from an empty plan: the plan is the
  -- selected poses from the first that is near the robot on, or the exception that there are none, and
  -- the global plan loses as many poses from its front as were erased.
  pub transform_from-eq :
      (threshold prune_distance : D) (global_plan : List (Pose2D D))
      → (let limit = fl.mul prune_distance prune_distance in
          let plan = selected (fl.mul threshold threshold) global_plan in
          transform_from fl move threshold true prune_distance (some robot) global_plan
          ≡ some (check_poses fl (kept limit plan), drop (erased limit plan) global_plan))
  unfolding transform_from prune_if
  transform_from-eq threshold prune_distance global_plan =
      let plan = selected (fl.mul threshold threshold) global_plan in
      let fits : leb (length plan) (length global_plan) ≡ true =
        ground (arith, length-selected (fl.mul threshold threshold) global_plan) in
      rw
        (
          select_poses-eq (fl.mul threshold threshold) global_plan,
          fits,
          prune_plans-eq (fl.mul prune_distance prune_distance) plan global_plan
              (length-selected (fl.mul threshold threshold) global_plan),
        )
        refl

  kept-front :
      (limit : D) (poses plan : List (Pose2D D)) (n : ℕ)
      → plan ≡ map move (take n poses)
      → length plan ≡ n
      → kept limit plan
        ≡ map move (take (length (kept limit plan)) (drop (erased limit plan) poses))
  kept-front limit poses plan n e l =
      let size : length (kept limit plan) ≡ n - erased limit plan =
        omega (arith, length-drop_until (is_near limit) plan) in
      drop_until-drop (is_near limit) plan
      ∙ ap (drop (erased limit plan)) e
      ∙ drop-map move (erased limit plan) (take n poses)
      ∙ ap (map move) (drop-take (erased limit plan) n poses)
      ∙ ap (λ (m : ℕ). map move (take m (drop (erased limit plan) poses))) (sym size)

  selected-near :
      (limit : D) (g : Pose2D D) (poses : List (Pose2D D))
      → is_far limit g ≡ false
      → selected limit (g ∷ poses) ≡ map move (take_through (is_far limit) (g ∷ poses))
  selected-near limit g poses h = rw (h, h) refl

  -- With pruning, for a global plan that begins within the threshold of the robot: no assertion fails
  -- and nothing is erased from an empty plan, and the plan that is returned, if it is not empty, is
  -- the front of the global plan that is left, taken into the frame of the cost map.
  pub transform_global_plan-front :
      (size : ℕ × ℕ) (resolution prune_distance : D) (g : Pose2D D) (poses : List (Pose2D D))
      → (let threshold = dist_threshold fl size.0 size.1 resolution in
          is_far (fl.mul threshold threshold) g ≡ false)
      → (plan : List (Pose2D D)) × (rest : List (Pose2D D)) × (transform_global_plan fl move size
            resolution true prune_distance
            (some robot)
            (g ∷ poses)
          ≡ some (check_poses fl plan, rest))
        × (plan ≡ map move (take (length plan) rest))
  unfolding transform_global_plan
  transform_global_plan-front (size_x, size_y) resolution prune_distance g poses h =
      let threshold = dist_threshold fl size_x size_y resolution in
      let limit = fl.mul prune_distance prune_distance in
      let plan = selected (fl.mul threshold threshold) (g ∷ poses) in
      let seen = take_through (is_far (fl.mul threshold threshold)) (g ∷ poses) in
      let seen_eq = selected-near (fl.mul threshold threshold) g poses h in
      (
        kept limit plan,
        drop (erased limit plan) (g ∷ poses),
        transform_from-eq threshold prune_distance (g ∷ poses),
        kept-front limit (g ∷ poses) plan (length seen)
            (seen_eq
              ∙ ap (map move) (take_through-take (is_far (fl.mul threshold threshold)) (g ∷ poses)))
            (ap length seen_eq ∙ length-map seen move),
      )
