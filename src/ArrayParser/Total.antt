-- ===== src/ArrayParser/Total.antt =====
-- The fuel of parseVVF is enough, and more of it changes nothing.
use rosnavigation2copy.Prelude.{
  ℕ, zero, suc, ◌+◌, ◌-◌, ◌<◌, ◌≤◌, ◌≡◌, refl, Bool, true, false, Option, some, List, [], ◌∷◌, ◌++◌,
  length, if◌then◌else◌, arith, Option-cases, inl, inr, ◌⊎◌,
}
use mathlib.Core.Option.{none-ne-some}
use rosnavigation2copy.ArrayParser.{
  Token, open_bracket, close_bracket, separator, other, token, Parsed, finish_parse, parse_rounds,
  parse_vvf,
}

Token-cases :
    (t : Token) → (t ≡ open_bracket) ⊎ ((t ≡ close_bracket) ⊎ ((t ≡ separator) ⊎ (t ≡ other)))
Token-cases open_bracket = inl refl
Token-cases close_bracket = inr (inl refl)
Token-cases separator = inr (inr (inl refl))
Token-cases other = inr (inr (inr refl))

module _ {F : Type 0} (read : List ℕ → Option (F × List ℕ)) where
  -- Extracting a float takes a character at least, when it succeeds.
  abbrev pub Consumes : Type 0
  Consumes =
      (input : List ℕ) (value : F) (rest : List ℕ)
      → read input ≡ some (value, rest)
      → length rest < length input

  abbrev Returns : Option (Parsed F) → Type 0
  Returns o = (p : Parsed F) × (o ≡ some p)

  -- A test that picks between a result and a round that returns.
  Returns-if :
      (test : Bool) (p : Parsed F) (o : Option (Parsed F))
      → Returns o
      → Returns (if test then some p else o)
  Returns-if true p o r = (p, refl)
  Returns-if false p o r = r

  Returns-if_not :
      (test : Bool) (p : Parsed F) (o : Option (Parsed F))
      → Returns o
      → Returns (if test then o else some p)
  Returns-if_not true p o r = r
  Returns-if_not false p o r = (p, refl)

  pub parse_rounds-Returns :
      Consumes
      → (fuel : ℕ) (input : List ℕ) (depth : ℕ) (current : List F) (result : List (List F))
      → length input < fuel
      → Returns (parse_rounds read fuel input depth current result)
  unfolding parse_rounds
  parse_rounds-Returns consumes zero input depth current result h = absurd (omega arith)
  parse_rounds-Returns consumes (suc fuel) [] depth current result h =
      (finish_parse read depth result, refl)
  parse_rounds-Returns consumes (suc fuel) (c ∷ input) depth current result h =
      elim (Token-cases (token c)) [
        | inl e ↦
            rw (parse_rounds, e)
              (Returns-if _ _ _
                (parse_rounds-Returns consumes fuel input (depth + 1) [] result (omega arith)))
        | inr (inl e) ↦
            rw (parse_rounds, e)
              (Returns-if _ _ _
                (parse_rounds-Returns consumes fuel input (depth - 1) current _ (omega arith)))
        | inr (inr (inl e)) ↦
            rw (parse_rounds, e)
              (parse_rounds-Returns consumes fuel input depth current result (omega arith))
        | inr (inr (inr e)) ↦ elim (Option-cases (read (c ∷ input))) [
          | inl fails ↦ rw (parse_rounds, e, fails) (Returns-if_not _ _ _ (_, refl))
          | inr ((value, rest), reads) ↦
              let shorter = consumes (c ∷ input) value rest reads in
              rw (parse_rounds, e, reads)
                (Returns-if_not _ _ _ (
                  parse_rounds-Returns consumes fuel rest depth (current ++ (value ∷ [])) result
                    (omega (arith, shorter))))
        ]
      ]

  pub parse_vvf-Returns : Consumes → (input : List ℕ) → Returns (parse_vvf read input)
  unfolding parse_vvf
  parse_vvf-Returns consumes input = parse_rounds-Returns consumes _ input 0 [] [] (omega arith)

  same-if :
      (test : Bool) (q p : Parsed F) (o o' : Option (Parsed F))
      → (o ≡ some p → o' ≡ some p)
      → (if test then some q else o) ≡ some p
      → (if test then some q else o') ≡ some p
  same-if true q p o o' f h = h
  same-if false q p o o' f h = f h

  same-if_not :
      (test : Bool) (q p : Parsed F) (o o' : Option (Parsed F))
      → (o ≡ some p → o' ≡ some p)
      → (if test then o else some q) ≡ some p
      → (if test then o' else some q) ≡ some p
  same-if_not true q p o o' f h = f h
  same-if_not false q p o o' f h = h

  -- More fuel gives the same result.
  pub parse_rounds_mono :
      (fuel more : ℕ) (input : List ℕ) (depth : ℕ) (current : List F) (result : List (List F))
      (p : Parsed F)
      → fuel ≤ more
      → parse_rounds read fuel input depth current result ≡ some p
      → parse_rounds read more input depth current result ≡ some p
  unfolding parse_rounds
  parse_rounds_mono zero more input depth current result p l h = absurd (none-ne-some p h)
  parse_rounds_mono (suc fuel) zero input depth current result p l h = absurd (omega arith)
  parse_rounds_mono (suc fuel) (suc more) [] depth current result p l h = h
  parse_rounds_mono (suc fuel) (suc more) (c ∷ input) depth current result p l h =
      let next = λ (s : List ℕ) (d : ℕ) (v : List F) (r : List (List F)).
        parse_rounds_mono fuel more s d v r p (omega arith) in
      elim (Token-cases (token c)) [
        | inl e ↦
            rw (parse_rounds, e) (same-if _ _ p _ _ (next _ _ _ _) (rw (parse_rounds, e) at h))
        | inr (inl e) ↦
            rw (parse_rounds, e) (same-if _ _ p _ _ (next _ _ _ _) (rw (parse_rounds, e) at h))
        | inr (inr (inl e)) ↦ rw (parse_rounds, e) (next _ _ _ _ (rw (parse_rounds, e) at h))
        | inr (inr (inr e)) ↦ elim (Option-cases (read (c ∷ input))) [
          | inl fails ↦ rw (parse_rounds, e, fails) (rw (parse_rounds, e, fails) at h)
          | inr ((value, rest), reads) ↦
              rw (parse_rounds, e, reads)
                (same-if_not _ _ p _ _ (next _ _ _ _) (rw (parse_rounds, e, reads) at h))
        ]
      ]
