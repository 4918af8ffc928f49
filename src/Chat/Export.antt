-- ===== src/Chat/Export.antt =====
-- src/modules/chat/services/chat-export.service.ts: the cells and lines of a CSV export. Texts are lists
-- of UTF-16 code units.
pub mod Reading
use chat_app_backend.Prelude.{
  ℕ, Bool, true, false, ◌||◌, Option, none, some, List, [], ◌∷◌, ◌++◌, map, any, ◌==◌,
  if◌then◌else◌,
}

abbrev pub quote : ℕ
quote = 34

abbrev pub comma : ℕ
comma = 44

abbrev pub cr : ℕ
cr = 13

abbrev pub lf : ℕ
lf = 10

-- `[=+\-@\t\r]`
abbrev pub starts_formula : ℕ → Bool
starts_formula c = c == 61 || (c == 43 || (c == 45 || (c == 64 || (c == 9 || c == cr))))

-- `[",\r\n]`
abbrev pub needs_quotes : ℕ → Bool
needs_quotes c = c == quote || (c == comma || (c == cr || c == lf))

-- `null` and `undefined` become the empty text.
abbrev pub text_of : Option (List ℕ) → List ℕ
text_of none = []
text_of (some text) = text

-- An apostrophe before what a spreadsheet would take for a formula.
unfoldable pub guarded : List ℕ → List ℕ
guarded [] = []
guarded (c ∷ text) = if starts_formula c then 39 ∷ c ∷ text else c ∷ text

-- `text.replace(/"/g, '""')`
abbrev pub doubled : List ℕ → List ℕ
doubled [] = []
doubled (c ∷ text) =
    let rest = doubled text in if c == quote then quote ∷ quote ∷ rest else c ∷ rest

unfoldable pub escaped : List ℕ → List ℕ
escaped text = if any needs_quotes text then quote ∷ (doubled text ++ quote ∷ []) else text

unfoldable pub csv_cell : Option (List ℕ) → List ℕ
csv_cell value = escaped (guarded (text_of value))

-- `cells.join(',')`
abbrev pub join : List (List ℕ) → List ℕ
join [] = []
join (cell ∷ []) = cell
join (cell ∷ next ∷ cells) = cell ++ comma ∷ join (next ∷ cells)

-- A line of the export.
unfoldable pub csv_line : List (Option (List ℕ)) → List ℕ
csv_line values = join (map csv_cell values) ++ cr ∷ lf ∷ []
