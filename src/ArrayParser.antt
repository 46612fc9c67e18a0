-- ===== src/ArrayParser.antt =====
-- nav2_costmap_2d/src/array_parser.cpp: parseVVF, which reads a list of lists of floats. A character is
-- its ASCII code. `read` is the extraction of a float from the stream, `input_ss >> value`: the value
-- and the characters after it, or `none` if the stream fails.
pub mod Total
pub mod RoundTrip
mod Tests
use rosnavigation2copy.Prelude.{
  ℕ, zero, suc, ◌+◌, ◌-◌, Bool, true, false, ◌||◌, Option, none, some, List, [], ◌∷◌, ◌++◌, length,
  leb, ◌==◌, if◌then◌else◌,
}

-- The cases of the switch on the next character.
pub data Token : Type 0 where
  open_bracket close_bracket separator other : Token

-- error_return: empty, or a message; the message on numbers names the character.
pub data ParseError : Type 0 where
  no_error too_deep more_close unterminated : ParseError
  wrong_depth : ℕ → ParseError

pub record Parsed (F : Type 0) : Type 0 where
  pub result : List (List F)
  pub error_return : ParseError

unfoldable pub token : ℕ → Token
token c =
    if c == 91
    then open_bracket
    else if c == 93
    then close_bracket
    else if c == 44 || c == 32 || c == 9
    then separator
    else other

module _ {F : Type 0} (read : List ℕ → Option (F × List ℕ)) where
  -- After the loop.
  unfoldable pub finish_parse : ℕ → List (List F) → Parsed F
  finish_parse depth result = record {
    result = result;
    error_return = if depth == 0 then no_error else unterminated;
  }

  abbrev fail : ParseError → List (List F) → Parsed F
  fail e result = record { result = result; error_return = e }

  -- The loop, on fuel: the rounds that are left.
  unfoldable pub parse_rounds : ℕ → List ℕ → ℕ → List F → List (List F) → Option (Parsed F)
  parse_rounds zero input depth current_vector result = none
  parse_rounds (suc fuel) [] depth current_vector result = some (finish_parse depth result)
  parse_rounds (suc fuel) (c ∷ input) depth current_vector result = elim (token c) [
    | open_bracket ↦
        let inner = parse_rounds fuel input (depth + 1) [] result in
        if leb 2 depth then some (fail too_deep result) else inner
    | close_bracket ↦
        let closed = if depth == 2 then result ++ (current_vector ∷ []) else result in
        let outer = parse_rounds fuel input (depth - 1) current_vector closed in
        if depth == 0 then some (fail more_close result) else outer
    | separator ↦ parse_rounds fuel input depth current_vector result
    | other ↦
        let number = elim (read (c ∷ input)) as (λ r. Option (Parsed F)) [
          | none ↦ some (finish_parse depth result)
          | some (value, rest) ↦
              parse_rounds fuel rest depth (current_vector ++ (value ∷ [])) result
        ] in
        if depth == 2 then number else some (fail (wrong_depth c) result)
  ]

  -- parseVVF: a round takes a character at least, and one more finds the end.
  unfoldable pub parse_vvf : List ℕ → Option (Parsed F)
  parse_vvf input = parse_rounds (length input + 1) input 0 [] []
