-- ===== src/Oscillation/Trend.antt =====
-- What a CommandTrend knows after a run of commands.
use rosnavigation2copy.Prelude.{
  ◌≡◌, ◌∙◌, Bool, true, false, ◌||◌, ◌&&◌, List, [], ◌∷◌, map, if◌then◌else◌, arith,
}
use rosnavigation2copy.Platform.{Floats}
use rosnavigation2copy.Oscillation.{
  Sign, zero, positive, negative, CommandTrend, is_positive, is_negative, reset_trend,
}
use rosnavigation2copy.Oscillation.{update, below_zero, above_zero}

-- The signs that are not zero, in order.
abbrev after : Sign → List Sign → List Sign
after zero signs = signs
after positive signs = positive ∷ signs
after negative signs = negative ∷ signs

abbrev pub moves : List Sign → List Sign
moves [] = []
moves (s ∷ signs) = after s (moves signs)

-- Somewhere a positive sign comes right before a negative one, and the other way round.
abbrev pub falls : List Sign → Bool
falls [] = false
falls (s ∷ []) = false
falls (s ∷ t ∷ signs) = is_positive s && is_negative t || falls (t ∷ signs)

abbrev pub rises : List Sign → Bool
rises [] = false
rises (s ∷ []) = false
rises (s ∷ t ∷ signs) = is_negative s && is_positive t || rises (t ∷ signs)

module _ {D : Type 0} (fl : Floats D) where
  abbrev pub sign_of : D → Sign
  sign_of v = if below_zero fl v then negative else if above_zero fl v then positive else zero

  unfoldable pub run : List D → CommandTrend → CommandTrend
  run [] t = t
  run (v ∷ vs) t = run vs (update fl v t).0

  abbrev signs : List D → List Sign
  signs vs = moves (map sign_of vs)

  record Remembers (t : CommandTrend) (vs : List D) (t' : CommandTrend) : Type 0 where
    negative_only : t'.negative_only ≡ (t.negative_only || falls (after t.sign (signs vs)))
    positive_only : t'.positive_only ≡ (t.positive_only || rises (after t.sign (signs vs)))
    enabled : t'.enabled ≡ true

  update-enabled : (v : D) (t : CommandTrend) → t.enabled ≡ true → (update fl v t).0.enabled ≡ true
  unfolding update
  update-enabled v t on = ground arith

  -- One command is one more sign for the trend to remember.
  falls-update :
      (v : D) (t : CommandTrend) (ss : List Sign)
      → t.enabled ≡ true
      → let t' = (update fl v t).0 in
        (t'.negative_only || falls (after t'.sign ss))
        ≡ (t.negative_only || falls (after t.sign (after (sign_of v) ss)))
  unfolding update
  falls-update v t ss on = ground arith

  rises-update :
      (v : D) (t : CommandTrend) (ss : List Sign)
      → t.enabled ≡ true
      → let t' = (update fl v t).0 in
        (t'.positive_only || rises (after t'.sign ss))
        ≡ (t.positive_only || rises (after t.sign (after (sign_of v) ss)))
  unfolding update
  rises-update v t ss on = ground arith

  run-Remembers : (vs : List D) (t : CommandTrend) → t.enabled ≡ true → Remembers t vs (run vs t)
  unfolding run
  run-Remembers [] t on = record {
    negative_only = ground arith;
    positive_only = ground arith;
    enabled = on;
  }
  run-Remembers (v ∷ vs) t on =
      let r = run-Remembers vs (update fl v t).0 (update-enabled v t on) in
      record {
        negative_only = r.negative_only ∙ falls-update v t (signs vs) on;
        positive_only = r.positive_only ∙ rises-update v t (signs vs) on;
        enabled = r.enabled;
      }

  -- After a run of commands from a reset, enabled trend, only negative commands are allowed exactly
  -- if, among the commands that are not zero, some positive one comes right before a negative one,
  -- and only positive commands if some negative one comes right before a positive one.
  pub run-reset_trend :
      (vs : List D) (t : CommandTrend)
      → t.enabled ≡ true
      → let t' = run vs (reset_trend t) in
        (t'.negative_only ≡ falls (signs vs)) × (t'.positive_only ≡ rises (signs vs))
  unfolding reset_trend
  run-reset_trend vs t on =
      let r = run-Remembers vs (reset_trend t) on in (r.negative_only, r.positive_only)
