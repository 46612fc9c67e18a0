-- ===== src/ArrayParser/Tests.antt =====
-- Runs of the parser with one digit for a float.
use rosnavigation2copy.Prelude.{
  ℕ, ◌<◌, ◌≡◌, refl, Option, none, some, some_inj, Option-cases, inl, inr, ◌==◌, ◌++◌, ap, List, [],
  ◌∷◌, length, arith, if◌then◌else◌,
}
use mathlib.Core.Option
use mathlib.Core.Option.{none-ne-some}
use rosnavigation2copy.ArrayParser.{
  other, token, no_error, more_close, unterminated, wrong_depth, finish_parse, parse_rounds,
  parse_vvf,
}
use rosnavigation2copy.ArrayParser.RoundTrip.{print_vvf, Reads, parse_vvf-print_vvf}

-- The digits, as the numbers below 10.
data Digit : Type 0 where
  one two : Digit

abbrev show_digit : Digit → List ℕ
show_digit one = 49 ∷ []
show_digit two = 50 ∷ []

abbrev digit_of : ℕ → Option Digit
digit_of c = if c == 49 then some one else if c == 50 then some two else none

abbrev read_digit : List ℕ → Option (Digit × List ℕ)
read_digit [] = none
read_digit (c ∷ cs) = Option.map (λ (d : Digit). (d, cs)) (digit_of c)

read_digit_lt :
    (input : List ℕ) (value : Digit) (rest : List ℕ)
    → read_digit input ≡ some (value, rest)
    → length rest < length input
read_digit_lt [] value rest h = absurd (none-ne-some _ h)
read_digit_lt (c ∷ cs) value rest h = elim (Option-cases (digit_of c)) [
  | inl e ↦ absurd (none-ne-some _ (rw e at h))
  | inr (d, e) ↦
      let same : cs ≡ rest = ap (λ (p : Digit × List ℕ). p.1) (some_inj (rw e at h)) in
      let size = ap length same in omega arith
]

show_digit_starts :
    (x : Digit) → (c : ℕ) × (cs : List ℕ) × (show_digit x ≡ c ∷ cs) × (token c ≡ other)
unfolding token
show_digit_starts one = (49, [], refl, refl)
show_digit_starts two = (50, [], refl, refl)

read_show : (x : Digit) (k : List ℕ) → read_digit (show_digit x ++ k) ≡ some (x, k)
read_show one k = refl
read_show two k = refl

digits-Reads : Reads read_digit show_digit
digits-Reads = record {
  consumes = read_digit_lt;
  starts = show_digit_starts;
  before_comma = λ x k. read_show x (44 ∷ k);
  before_bracket = λ x k. read_show x (93 ∷ k);
}

abbrev rows : List (List Digit)
rows = (one ∷ two ∷ []) ∷ [] ∷ (two ∷ []) ∷ []

parse_vvf-print_vvf_example :
    parse_vvf read_digit (print_vvf show_digit rows)
    ≡ some (record { result = rows; error_return = no_error })
parse_vvf-print_vvf_example = parse_vvf-print_vvf read_digit show_digit digits-Reads rows

-- "[[1]" and "[1]" and "]".
unclosed :
    parse_vvf read_digit (91 ∷ 91 ∷ 49 ∷ 93 ∷ [])
    ≡ some (record { result = (one ∷ []) ∷ []; error_return = unterminated })
unfolding parse_vvf parse_rounds token finish_parse
unclosed = refl

shallow :
    parse_vvf read_digit (91 ∷ 49 ∷ 93 ∷ [])
    ≡ some (record { result = []; error_return = wrong_depth 49 })
unfolding parse_vvf parse_rounds token finish_parse
shallow = refl

unopened : parse_vvf read_digit (93 ∷ []) ≡ some (record { result = []; error_return = more_close })
unfolding parse_vvf parse_rounds token finish_parse
unopened = refl
