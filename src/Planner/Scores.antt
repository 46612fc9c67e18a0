-- ===== src/Planner/Scores.antt =====
-- scoreTrajectory breaks off once a trajectory is worse than the best: what its result says of the
-- score without the break.
use rosnavigation2copy.Prelude.{
  true, false, ◌&&◌, ◌≡◌, refl, sym, Option, none, some, some_inj, ◌⊎◌, inl, inr, List, [], ◌∷◌,
  arith, Bool-cases, if◌then◌else◌,
}
use rosnavigation2copy.Platform.{Floats}
use mathlib.Core.Option.{none-ne-some}
use rosnavigation2copy.Planner.{
  Verdict, legal, illegal, TrajectoryCritic, TrajectoryScore, is_zero, minus_one, add_score,
  skip_score, score_critics,
}

-- Facts of IEEE 754 for doubles that are not NaN, with rounding to float32: the order is total, and
-- adding what is not negative to a float32 does not make it less.
pub record Ordered {D : Type 0} (fl : Floats D) (narrow : D → D) : Type 0 where
  pub asym : (a b : D) → fl.lt a b ≡ true → fl.lt b a ≡ false
  pub trans : (a b c : D) → fl.lt b a ≡ false → fl.lt c b ≡ false → fl.lt c a ≡ false
  pub below_zero : fl.lt (minus_one fl) (fl.of_nat 0) ≡ true
  pub grows :
      (x y : D)
      → narrow x ≡ x
      → fl.lt y (fl.of_nat 0) ≡ false
      → fl.lt (narrow (fl.add x y)) x ≡ false
  pub narrow_zero : narrow (fl.of_nat 0) ≡ fl.of_nat 0
  pub narrow_again : (x : D) → narrow (narrow x) ≡ narrow x

pub Verdict-cases :
    {N A : Type 0} (v : Verdict N A)
    → ((a : A) × (v ≡ legal a)) ⊎ ((c : N) × (r : N) × (v ≡ illegal c r))
Verdict-cases (legal a) = inl (a, refl)
Verdict-cases (illegal c r) = inr (c, r, refl)

module _ {N T D : Type 0} (fl : Floats D) (narrow : D → D) where
  -- No critic gives a score whose weighted value is negative.
  abbrev pub AllPositive : List (TrajectoryCritic N T D) → Type 0
  AllPositive [] = Unit {0}
  AllPositive (c ∷ critics) =
      ((t : T) (raw : D)
        → c.score t ≡ legal raw
        → fl.lt (fl.mul raw (narrow c.scale)) (fl.of_nat 0) ≡ false)
      × AllPositive critics

  -- The score by all critics, or `none` if one of them refuses the trajectory.
  unfoldable pub full_score :
      List (TrajectoryCritic N T D) → TrajectoryScore N T D → Option (TrajectoryScore N T D)
  full_score [] s = some s
  full_score (c ∷ critics) s =
      let asked = elim (c.score s.traj) as (λ v. Option (TrajectoryScore N T D)) [
        | illegal critic reason ↦ none
        | legal raw ↦ full_score critics (add_score fl narrow c raw s)
      ] in
      if is_zero fl (narrow c.scale) then full_score critics (skip_score fl narrow c s) else asked

pub irrefl :
    {D : Type 0} (fl : Floats D) (narrow : D → D) → Ordered fl narrow → (a : D) → fl.lt a a ≡ false
irrefl fl narrow laws a = elim (Bool-cases (fl.lt a a)) [ inl h ↦ laws.asym a a h | inr h ↦ h ]

module _ {N T D : Type 0} (fl : Floats D) (narrow : D → D) (laws : Ordered fl narrow) where
  -- A full score is at least the score that it goes on from.
  pub full_score-ge :
      (critics : List (TrajectoryCritic N T D)) (s s' : TrajectoryScore N T D)
      → AllPositive fl narrow critics
      → narrow s.total ≡ s.total
      → full_score fl narrow critics s ≡ some s'
      → fl.lt s'.total s.total ≡ false
  unfolding full_score skip_score add_score
  full_score-ge [] s s' p n e = rw (sym (some_inj e)) (irrefl fl narrow laws s.total)
  full_score-ge (c ∷ critics) s s' p n e = elim (Bool-cases (is_zero fl (narrow c.scale))) [
    | inl zero_scale ↦
        full_score-ge critics (skip_score fl narrow c s) s' p.1 n (rw zero_scale at e)
    | inr other ↦ elim (Verdict-cases (c.score s.traj)) [
      | inr (critic, reason, v) ↦ absurd (none-ne-some s' (rw (other, v) at e))
      | inl (raw, v) ↦
          let s1 = add_score fl narrow c raw s in
          let up = laws.grows s.total (fl.mul raw (narrow c.scale)) n (p.0 s.traj raw v) in
          let rest = full_score-ge critics s1 s' p.1 (laws.narrow_again _) (rw (other, v) at e) in
          laws.trans s.total s1.total s'.total up rest
    ]
  ]

  -- A result of scoreTrajectory and the full score agree, or the result was broken off above a
  -- positive best score, which the full score is not below.
  abbrev pub Agrees :
      D → Verdict N (TrajectoryScore N T D) → Option (TrajectoryScore N T D) → Type 0
  Agrees best_score (illegal critic reason) full = full ≡ none
  Agrees best_score (legal s) full =
      (full ≡ some s)
      ⊎ ((fl.lt (fl.of_nat 0) best_score ≡ true)
          × (fl.lt best_score s.total ≡ true)
          × ((s' : TrajectoryScore N T D) → full ≡ some s' → fl.lt s'.total best_score ≡ false))

  pub score_critics-Agrees :
      (best_score : D) (critics : List (TrajectoryCritic N T D)) (s : TrajectoryScore N T D)
      → AllPositive fl narrow critics
      → narrow s.total ≡ s.total
      → Agrees best_score
          (score_critics fl narrow best_score critics s)
          (full_score fl narrow critics s)
  unfolding score_critics full_score skip_score add_score
  score_critics-Agrees b [] s p n = inl refl
  score_critics-Agrees b (c ∷ critics) s p n = elim (Bool-cases (is_zero fl (narrow c.scale))) [
    | inl zero_scale ↦
        rw zero_scale (score_critics-Agrees b critics (skip_score fl narrow c s) p.1 n)
    | inr other ↦ elim (Verdict-cases (c.score s.traj)) [
      | inr (critic, reason, v) ↦ rw (other, v) refl
      | inl (raw, v) ↦
          let s1 = add_score fl narrow c raw s in
          let n1 : narrow s1.total ≡ s1.total = laws.narrow_again _ in
          elim (Bool-cases (fl.lt (fl.of_nat 0) b && fl.lt b s1.total)) [
            | inr on ↦ rw (other, v, on) (score_critics-Agrees b critics s1 p.1 n1)
            | inl off ↦
                let positive : fl.lt (fl.of_nat 0) b ≡ true = ground arith in
                let above : fl.lt b s1.total ≡ true = ground arith in
                rw (other, v, off)
                  (inr (
                    positive,
                    above,
                    λ s' e.
                        laws.trans b s1.total s'.total (laws.asym b s1.total above)
                          (full_score-ge critics s1 s' p.1 n1 e),
                  ))
          ]
    ]
  ]
