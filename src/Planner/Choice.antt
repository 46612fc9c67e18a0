-- ===== src/Planner/Choice.antt =====
-- coreScoringAlgorithm returns a trajectory of the lowest score.
use rosnavigation2copy.Prelude.{
  Bool, true, false, ◌≡◌, refl, sym, ap, ◌∙◌, Option, none, some, some_inj, ◌⊎◌, inl, inr, List, [],
  ◌∷◌, Bool-cases,
}
use rosnavigation2copy.Platform.{Floats}
use mathlib.Core.List.{Memᴰ}
use mathlib.Core.List.Memᴰ.{head, tail, not-nil}
use mathlib.Core.Option.{none-ne-some}
use mathlib.Core.Bool.{true≢false}
use rosnavigation2copy.Planner.{
  Verdict, legal, illegal, TrajectoryCritic, TrajectoryScore, Evaluation, IllegalTrajectoryTracker,
  Search, unscored, score_trajectory, accept, reject, evaluate, evaluate_all, start_search,
  core_scoring_algorithm,
}
use rosnavigation2copy.Planner.Scores.{
  Ordered, AllPositive, full_score, full_score-ge, Agrees, score_critics-Agrees, irrefl,
}

module _ {N T D W : Type 0} (same : N → N → Bool) (fl : Floats D) (narrow : D → D)
    (critics : List (TrajectoryCritic N T D)) (generate : W → T) where
  -- The full score of a twist's trajectory.
  abbrev pub full : W → Option (TrajectoryScore N T D)
  full w = full_score fl narrow critics (unscored fl (generate w))

  -- The best score is that of a twist in `Seen`, and none of them has a lower one.
  pub record IsBest (Seen : W → Type 0) (best : TrajectoryScore N T D) : Type 0 where
    pub positive : fl.lt best.total (fl.of_nat 0) ≡ false
    pub twist : W
    pub seen : Seen twist
    pub scored : full twist ≡ some best
    pub lowest :
        (w : W) (s : TrajectoryScore N T D)
        → Seen w
        → full w ≡ some s
        → fl.lt s.total best.total ≡ false

  -- The critics refuse every twist in `Seen`.
  abbrev pub Refused : (W → Type 0) → Type 0
  Refused Seen = (w : W) → Seen w → full w ≡ none

  abbrev Tracks : (W → Type 0) → TrajectoryScore N T D → Type 0
  Tracks Seen best = ((fl.lt best.total (fl.of_nat 0) ≡ true) × Refused Seen) ⊎ IsBest Seen best

  Tracks-map :
      (P Q : W → Type 0) (best : TrajectoryScore N T D)
      → ((w : W) → P w → Q w)
      → ((w : W) → Q w → P w)
      → Tracks P best
      → Tracks Q best
  Tracks-map P Q best f g (inl (low, r)) = inl (low, λ w q. r w (g w q))
  Tracks-map P Q best f g (inr b) = inr (record {
    positive = b.positive;
    twist = b.twist;
    seen = f b.twist b.seen;
    scored = b.scored;
    lowest = λ w s q. b.lowest w s (g w q);
  })

  -- One more twist is seen.
  abbrev More : (W → Type 0) → W → W → Type 0
  More P w v = P v ⊎ (v ≡ w)

  -- A twist that is no better leaves the best score.
  IsBest-keep :
      (P : W → Type 0) (w : W) (best : TrajectoryScore N T D)
      → IsBest P best
      → ((s : TrajectoryScore N T D) → full w ≡ some s → fl.lt s.total best.total ≡ false)
      → IsBest (More P w) best
  IsBest-keep P w best b h = record {
    positive = b.positive;
    twist = b.twist;
    seen = inl b.seen;
    scored = b.scored;
    lowest = λ v s m e. elim m [
      | inl p ↦ b.lowest v s p e
      | inr same_twist ↦ h s (ap full (sym same_twist) ∙ e)
    ];
  }

  Tracks-refuse :
      (P : W → Type 0) (w : W) (best : TrajectoryScore N T D)
      → full w ≡ none
      → Tracks P best
      → Tracks (More P w) best
  Tracks-refuse P w best e (inl (low, r)) =
      inl (low, λ v m. elim m [ inl p ↦ r v p | inr same_twist ↦ ap full same_twist ∙ e ])
  Tracks-refuse P w best e (inr b) =
      inr (IsBest-keep P w best b λ s f. absurd (none-ne-some s (sym e ∙ f)))

  module _ (laws : Ordered fl narrow) (positive : AllPositive fl narrow critics) where
    full-positive :
        (w : W) (s : TrajectoryScore N T D) → full w ≡ some s → fl.lt s.total (fl.of_nat 0) ≡ false
    full-positive w s e =
        full_score-ge fl narrow laws critics (unscored fl (generate w)) s positive laws.narrow_zero
          e

    -- A twist that is better than the best one is the best.
    IsBest-new :
        (P : W → Type 0) (w : W) (best s : TrajectoryScore N T D)
        → IsBest P best
        → full w ≡ some s
        → fl.lt s.total best.total ≡ true
        → IsBest (More P w) s
    IsBest-new P w best s b e less = record {
      positive = full-positive w s e;
      twist = w;
      seen = inr refl;
      scored = e;
      lowest = λ v s' m f. elim m [
        | inl p ↦ laws.trans s.total best.total s'.total (laws.asym _ _ less) (b.lowest v s' p f)
        | inr same_twist ↦
            let one : s ≡ s' = some_inj (sym e ∙ ap full (sym same_twist) ∙ f) in
            rw (sym one) (irrefl fl narrow laws s.total)
      ];
    }

    IsBest-first :
        (P : W → Type 0) (w : W) (s : TrajectoryScore N T D)
        → Refused P
        → full w ≡ some s
        → IsBest (More P w) s
    IsBest-first P w s r e = record {
      positive = full-positive w s e;
      twist = w;
      seen = inr refl;
      scored = e;
      lowest = λ v s' m f. elim m [
        | inl p ↦ absurd (none-ne-some s' (sym (r v p) ∙ f))
        | inr same_twist ↦
            let one : s ≡ s' = some_inj (sym e ∙ ap full (sym same_twist) ∙ f) in
            rw (sym one) (irrefl fl narrow laws s.total)
      ];
    }

    accept-Tracks :
        (P : W → Type 0) (w : W) (st : Search N T D) (s : TrajectoryScore N T D)
        → Agrees fl narrow laws st.best.total (legal s) (full w)
        → Tracks P st.best
        → Tracks (More P w) (accept fl narrow s st).best
    unfolding accept
    accept-Tracks P w st s (inl e) (inl (low, r)) = rw low (inr (IsBest-first P w s r e))
    accept-Tracks P w st s (inr (above, _, _)) (inl (low, r)) =
        absurd (true≢false (sym above ∙ laws.asym _ _ low))
    accept-Tracks P w st s a (inr b) = elim (Bool-cases (fl.lt s.total st.best.total)) [
      | inl less ↦ elim a [
        | inl e ↦ rw (b.positive, less) (inr (IsBest-new P w st.best s b e less))
        | inr (_, more, _) ↦ absurd (true≢false (sym more ∙ laws.asym _ _ less))
      ]
      | inr not_less ↦
          let no_lower : (s' : TrajectoryScore N T D)
              → full w ≡ some s'
              → fl.lt s'.total st.best.total ≡ false =
            λ s' f. elim a [
              | inl e ↦ rw (some_inj (sym f ∙ e)) not_less
              | inr (_, _, least) ↦ least s' f
            ] in
          rw (b.positive, not_less) (inr (IsBest-keep P w st.best b no_lower))
    ]

    step-Tracks :
        (P : W → Type 0) (w : W) (st : Search N T D) (v : Verdict N (TrajectoryScore N T D))
        → score_trajectory fl narrow critics (generate w) st.best.total ≡ v
        → Agrees fl narrow laws st.best.total v (full w)
        → Tracks P st.best
        → Tracks (More P w) (evaluate same fl narrow critics generate (generate w) st).best
    unfolding evaluate reject
    step-Tracks P w st (legal s) e a t = rw (evaluate, e) (accept-Tracks P w st s a t)
    step-Tracks P w st (illegal critic reason) e a t =
        rw (evaluate, e) (Tracks-refuse P w st.best a t)

    pub evaluate_all-Tracks :
        (P : W → Type 0) (twists : List W) (st : Search N T D)
        → Tracks P st.best
        → Tracks
            (λ w. P w ⊎ Memᴰ w twists)
            (evaluate_all same fl narrow critics generate twists st).best
    unfolding evaluate_all score_trajectory
    evaluate_all-Tracks P [] st t =
        Tracks-map P _ _ (λ w p. inl p) (λ w m. elim m [ inl p ↦ p | inr m' ↦ absurd (not-nil m') ])
          t
    evaluate_all-Tracks P (w ∷ twists) st t =
        let agree =
          score_critics-Agrees fl narrow laws st.best.total critics (unscored fl (generate w))
            positive laws.narrow_zero in
        let rest = evaluate_all-Tracks (More P w) twists _ (step-Tracks P w st _ refl agree t) in
        Tracks-map _ _ _
          (λ v m. elim m [
            | inl (inl p) ↦ inl p
            | inl (inr e) ↦ inr (head e)
            | inr m' ↦ inr (tail m')
          ])
          (λ v m. elim m [
            | inl p ↦ inl (inl p)
            | inr (head e) ↦ inl (inr e)
            | inr (tail m') ↦ inr m'
          ])
          rest

  -- What coreScoringAlgorithm throws or returns.
  abbrev pub Picks : List W → IllegalTrajectoryTracker N ⊎ TrajectoryScore N T D → Type 0
  Picks twists (inl tracker) = Refused (λ w. Memᴰ w twists)
  Picks twists (inr best) = IsBest (λ w. Memᴰ w twists) best

  -- For critics that give no negative score, and doubles that are not NaN: coreScoringAlgorithm
  -- returns the score, by all critics, of one of the twists, and no twist that all critics accept has
  -- a lower one; it throws if the critics refuse every twist, and only then.
  pub core_scoring_algorithm-Picks :
      Ordered fl narrow
      → AllPositive fl narrow critics
      → (blank : T) (twists : List W) (results : Option (Evaluation N T D))
      → Picks twists (core_scoring_algorithm same fl narrow critics generate blank twists results).0
  unfolding core_scoring_algorithm start_search
  core_scoring_algorithm-Picks laws positive blank twists results =
      let start = start_search same fl narrow critics generate blank results in
      let none_seen : Tracks (λ w. ⊥) start.best = inl (laws.below_zero, λ w m. absurd m) in
      let t =
        Tracks-map _ (λ w. Memᴰ w twists) _ (λ w m. elim m [ inl e ↦ absurd e | inr m' ↦ m' ])
          (λ w m. inr m) (evaluate_all-Tracks laws positive (λ w. ⊥) twists start none_seen) in
      elim t [ inl (low, r) ↦ rw low r | inr b ↦ rw b.positive b ]
