-- ===== src/ArrayParser/RoundTrip.antt =====
-- What is printed as a list of lists of floats is read back.
use rosnavigation2copy.Prelude.{
  ℕ, suc, ◌+◌, ◌≡◌, refl, sym, ap, ◌∙◌, Option, some, length, List, [], ◌∷◌, ◌++◌, arith,
}
use mathlib.Core.List.{append-nil, append_assoc}
use rosnavigation2copy.ArrayParser.{
  other, token, Parsed, no_error, finish_parse, parse_rounds, parse_vvf,
}
use rosnavigation2copy.ArrayParser.Total.{Consumes, parse_vvf-Returns, parse_rounds_mono}

module _ {F : Type 0} (show : F → List ℕ) where
  -- The rest of a row from its first comma or its bracket on, before the characters `k`.
  unfoldable pub print_tail : List F → List ℕ → List ℕ
  print_tail [] k = 93 ∷ k
  print_tail (x ∷ xs) k = 44 ∷ 32 ∷ (show x ++ print_tail xs k)

  -- [1.0, 2.0]
  unfoldable pub print_row : List F → List ℕ → List ℕ
  print_row [] k = 91 ∷ 93 ∷ k
  print_row (x ∷ xs) k = 91 ∷ (show x ++ print_tail xs k)

  unfoldable pub print_rows : List (List F) → List ℕ
  print_rows [] = 93 ∷ []
  print_rows (row ∷ rows) = 44 ∷ 32 ∷ print_row row (print_rows rows)

  -- [[1.0, 2.0], [3.3]]
  unfoldable pub print_vvf : List (List F) → List ℕ
  print_vvf [] = 91 ∷ 93 ∷ []
  print_vvf (row ∷ rows) = 91 ∷ print_row row (print_rows rows)

-- What the extraction of a float does with a printed one: `show x` begins with a character of a
-- number, and is read back where a comma or a bracket follows.
pub record Reads {F : Type 0} (read : List ℕ → Option (F × List ℕ)) (show : F → List ℕ)
    : Type 0 where
  pub consumes : Consumes read
  pub starts : (x : F) → (c : ℕ) × (cs : List ℕ) × (show x ≡ c ∷ cs) × (token c ≡ other)
  pub before_comma : (x : F) (k : List ℕ) → read (show x ++ (44 ∷ k)) ≡ some (x, 44 ∷ k)
  pub before_bracket : (x : F) (k : List ℕ) → read (show x ++ (93 ∷ k)) ≡ some (x, 93 ∷ k)

module _ {F : Type 0} (read : List ℕ → Option (F × List ℕ)) (show : F → List ℕ)
    (laws : Reads read show) where
  abbrev Parses : List ℕ → ℕ → List F → List (List F) → Parsed F → Type 0
  Parses input depth current result p =
      (fuel : ℕ) × (parse_rounds read fuel input depth current result ≡ some p)

  read_tail :
      (x : F) (xs : List F) (k : List ℕ)
      → read (show x ++ print_tail show xs k) ≡ some (x, print_tail show xs k)
  unfolding print_tail
  read_tail x [] k = laws.before_bracket x k
  read_tail x (y ∷ xs) k = laws.before_comma x _

  number_round :
      (fuel c : ℕ) (input rest : List ℕ) (x : F) (current : List F) (result : List (List F))
      (p : Parsed F)
      → token c ≡ other
      → read (c ∷ input) ≡ some (x, rest)
      → parse_rounds read fuel rest 2 (current ++ (x ∷ [])) result ≡ some p
      → parse_rounds read (suc fuel) (c ∷ input) 2 current result ≡ some p
  unfolding parse_rounds
  number_round fuel c input rest x current result p t r h = rw (parse_rounds, t, r) h

  -- A number is put at the end of the row.
  Parses-number :
      (x : F) (xs : List F) (k : List ℕ) (current : List F) (result : List (List F)) (p : Parsed F)
      → Parses (print_tail show xs k) 2 (current ++ (x ∷ [])) result p
      → Parses (show x ++ print_tail show xs k) 2 current result p
  Parses-number x xs k current result p (fuel, h) =
      let (c, cs, e, t) = laws.starts x in
      let rest = print_tail show xs k in
      let begin : show x ++ rest ≡ c ∷ (cs ++ rest) = ap (λ (l : List ℕ). l ++ rest) e in
      let reads = rw begin at (read_tail x xs k) in
      (suc fuel, rw begin (number_round fuel c (cs ++ rest) rest x current result p t reads h))

  Parses-tail :
      (xs : List F) (k : List ℕ) (current : List F) (result : List (List F)) (p : Parsed F)
      → Parses k 1 (current ++ xs) (result ++ ((current ++ xs) ∷ [])) p
      → Parses (print_tail show xs k) 2 current result p
  unfolding parse_rounds print_tail token
  Parses-tail [] k current result p (fuel, h) = (suc fuel, rw (append-nil current) at h)
  Parses-tail (x ∷ xs) k current result p h =
      let e = append_assoc current (x ∷ []) xs in
      let (fuel, n) =
        Parses-number x xs k current result p
          (Parses-tail xs k (current ++ (x ∷ [])) result p (rw e h)) in
      (suc (suc fuel), n)

  Parses-row :
      (row : List F) (k : List ℕ) (current : List F) (result : List (List F)) (p : Parsed F)
      → Parses k 1 row (result ++ (row ∷ [])) p
      → Parses (print_row show row k) 1 current result p
  unfolding parse_rounds print_row token
  Parses-row [] k current result p (fuel, h) = (suc (suc fuel), h)
  Parses-row (x ∷ xs) k current result p h =
      let (fuel, n) = Parses-number x xs k [] result p (Parses-tail xs k (x ∷ []) result p h) in
      (suc fuel, n)

  Parses-rows :
      (rows : List (List F)) (current : List F) (result : List (List F))
      → Parses
          (print_rows show rows)
          1
          current
          result
          (record { result = result ++ rows; error_return = no_error })
  unfolding parse_rounds print_rows token finish_parse
  Parses-rows [] current result = (2, rw (append-nil result) refl)
  Parses-rows (row ∷ rows) current result =
      let e = append_assoc result (row ∷ []) rows in
      let (fuel, n) =
        Parses-row row (print_rows show rows) current result _
          (Parses-rows rows row (result ++ (row ∷ []))) in
      (suc (suc fuel), rw e at n)

  Parses-vvf :
      (vv : List (List F))
      → Parses (print_vvf show vv) 0 [] [] (record { result = vv; error_return = no_error })
  unfolding parse_rounds print_vvf token finish_parse
  Parses-vvf [] = (3, refl)
  Parses-vvf (row ∷ rows) =
      let (fuel, n) =
        Parses-row row (print_rows show rows) [] [] _ (Parses-rows rows row (row ∷ [])) in
      (suc fuel, n)

  -- parseVVF returns a printed list of lists of floats, with no error.
  pub parse_vvf-print_vvf :
      (vv : List (List F))
      → parse_vvf read (print_vvf show vv) ≡ some (record { result = vv; error_return = no_error })
  unfolding parse_vvf
  parse_vvf-print_vvf vv =
      let (fuel, h) = Parses-vvf vv in
      let (p, e) = parse_vvf-Returns read laws.consumes (print_vvf show vv) in
      let enough = length (print_vvf show vv) + 1 in
      let one = parse_rounds_mono read fuel (fuel + enough) _ _ _ _ _ (omega arith) h in
      let two = parse_rounds_mono read enough (fuel + enough) _ _ _ _ p (omega arith) e in
      e ∙ sym two ∙ one
