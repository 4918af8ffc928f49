-- ===== src/Tests/Exporting.antt =====
-- A line of a CSV export: a formula with a comma and quotes, and a missing value.
use chat_app_backend.Prelude.{
  ℕ, ◌≡◌, refl, false, Option, none, some, List, [], ◌∷◌, ◌++◌, map, All,
}
use chat_app_backend.Chat.Export.{csv_line, csv_cell, escaped, guarded}
use chat_app_backend.Chat.Export.Reading.{read, start, shown, is_formula, read-csv_line}

-- `=A,"`
abbrev formula : Option (List ℕ)
formula = some (61 ∷ 65 ∷ 44 ∷ 34 ∷ [])

read-csv_line_example :
    (read start (csv_line (formula ∷ none ∷ []) ++ 66 ∷ [])
      ≡ some (map shown (formula ∷ none ∷ []), 66 ∷ []))
    × All (λ field. is_formula field ≡ false) (map shown (formula ∷ none ∷ []))
read-csv_line_example = read-csv_line formula (none ∷ []) (66 ∷ [])

-- `"'=A,""",` and the end of the line
written : csv_line (formula ∷ none ∷ []) ≡ 34 ∷ 39 ∷ 61 ∷ 65 ∷ 44 ∷ 34 ∷ 34 ∷ 34 ∷ 44 ∷ 13 ∷ 10 ∷ []
unfolding csv_line csv_cell escaped guarded
written = refl
