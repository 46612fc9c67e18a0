-- ===== src/MapGrid/Totals.antt =====
-- The poses that a critic looks at, and what aggregate makes of their values.
use rosnavigation2copy.Prelude.{
  if_of_true, if_of_false, ◌-◌, ◌≡◌, ◌∙◌, refl, ap, sym, inl, inr, Bool, true, false, Bool-cases,
  List, [], ◌∷◌, arith, length, drop, if◌then◌else◌,
}
use rosnavigation2copy.Platform.{Floats}
use rosnavigation2copy.MapGrid.ScoreAggregationType.{last, sum, product}
use rosnavigation2copy.MapGrid.{
  MapGridCritic, Reason, ScoreAggregationType, aggregate, start_score, scored_poses,
}
use rosnavigation2copy.MapGrid.Scoring.{total}
use rosnavigation2copy.MapGrid.Values.{
  last_only, looked_at, last_value, sum_of, product_of, combined,
}

drop_all_but_one :
    {A : Type 0} (p : A) (poses : List A) → drop (length poses) (p ∷ poses) ≡ last_only (p ∷ poses)
drop_all_but_one p [] = refl
drop_all_but_one p (q ∷ poses) = drop_all_but_one q poses

but_one : {A : Type 0} (poses : List A) → drop (length poses - 1) poses ≡ last_only poses
but_one [] = refl
but_one (p ∷ poses) =
    let e : length (p ∷ poses) - 1 ≡ length poses = omega arith in
    ap (λ n. drop n (p ∷ poses)) e ∙ drop_all_but_one p poses

module _ {N D : Type 0} (fl : Floats D) (text : Reason → N) (critic : MapGridCritic N D) where
  aggregated :
      (t : ScoreAggregationType) (score g : D) (gs : List D)
      → critic.aggregation_type ≡ t
      → total fl text critic score (g ∷ gs) ≡ total fl text critic (aggregate fl text t score g) gs
  aggregated t score g gs e = ap (λ t'. total fl text critic (aggregate fl text t' score g) gs) e

  -- A product that is not above 0 stays.
  total-stays :
      (score : D) (gs : List D)
      → critic.aggregation_type ≡ product
      → fl.lt (fl.of_nat 0) score ≡ false
      → total fl text critic score gs ≡ score
  unfolding aggregate
  total-stays score [] e low = refl
  total-stays score (g ∷ gs) e low =
      aggregated product score g gs e
      ∙ ap (λ d. total fl text critic d gs) (if_of_false _ _ low)
      ∙ total-stays score gs e low

  total-product :
      (score : D) (gs : List D)
      → critic.aggregation_type ≡ product
      → total fl text critic score gs ≡ product_of fl score gs
  unfolding aggregate
  total-product score [] e = refl
  total-product score (g ∷ gs) e = elim (Bool-cases (fl.lt (fl.of_nat 0) score)) [
    | inl above ↦
        aggregated product score g gs e
        ∙ ap (λ d. total fl text critic d gs) (if_of_true _ _ above)
        ∙ total-product (fl.mul score g) gs e
        ∙ sym (if_of_true _ _ above)
    | inr low ↦ total-stays score (g ∷ gs) e low ∙ sym (if_of_false _ _ low)
  ]

  total-sum :
      (score : D) (gs : List D)
      → critic.aggregation_type ≡ sum
      → total fl text critic score gs ≡ sum_of fl score gs
  unfolding aggregate
  total-sum score [] e = refl
  total-sum score (g ∷ gs) e = aggregated sum score g gs e ∙ total-sum (fl.add score g) gs e

  total-last :
      (score : D) (gs : List D)
      → critic.aggregation_type ≡ last
      → total fl text critic score gs ≡ last_value fl score gs
  unfolding aggregate
  total-last score [] e = refl
  total-last score (g ∷ gs) e = aggregated last score g gs e ∙ total-last g gs e

  pub started :
      (t : ScoreAggregationType) (gs : List D)
      → critic.aggregation_type ≡ t
      → total fl text critic (start_score fl text t) gs ≡ combined fl t gs
  unfolding start_score
  started last gs e = total-last (fl.of_nat 0) gs e
  started sum gs e = total-sum (fl.of_nat 0) gs e
  started product gs e = total-product (fl.of_nat 1) gs e

  by_stop :
      (stop : Bool) (poses : List (D × D))
      → (if stop then poses else drop (length poses - 1) poses) ≡ looked_at last stop poses
  by_stop true poses = refl
  by_stop false poses = but_one poses

  pub by_type :
      (t : ScoreAggregationType) (poses : List (D × D))
      → critic.aggregation_type ≡ t
      → scored_poses fl text critic poses ≡ looked_at t critic.stop_on_failure poses
  unfolding scored_poses
  by_type last poses e = rw (scored_poses, e) (by_stop critic.stop_on_failure poses)
  by_type sum poses e = rw (scored_poses, e) refl
  by_type product poses e = rw (scored_poses, e) refl
