-- ===== src/Chat/Export/Reading.antt =====
-- A reader of RFC 4180, written from the standard, reads back what the export writes.
use mathlib.Core.Option
use mathlib.Core.List.{append_assoc}
use chat_app_backend.Prelude.{
  ℕ, ◌≡◌, ◌≢◌, ◌∙◌, refl, ap, Bool, true, false, ◌||◌, Option, none, some, List, [], ◌∷◌, ◌++◌, map,
  any, All, ◌==◌, if◌then◌else◌, arith, inl, inr, Bool-cases, eq_of_==,
}
use chat_app_backend.Chat.Export.{
  quote, comma, cr, lf, starts_formula, needs_quotes, text_of, guarded, doubled, escaped, csv_cell,
  join, csv_line,
}

-- Where a reader stands: at the start of a field, in a field without quotes, between quotes, after a
-- quote there, or after a carriage return.
pub data Place : Type 0 where
  start plain quoted closing ending : Place

-- The fields of the first record, and the text after it.
abbrev pub Read : Type 0
Read = Option (List (List ℕ) × List ℕ)

abbrev pub push : ℕ → List (List ℕ) × List ℕ → List (List ℕ) × List ℕ
push c ([], rest) = ((c ∷ []) ∷ [], rest)
push c (field ∷ fields, rest) = ((c ∷ field) ∷ fields, rest)

abbrev pub add : ℕ → Read → Read
add c r = Option.map (push c) r

abbrev pub new_field : Read → Read
new_field r = Option.map (λ (x : List (List ℕ) × List ℕ). ([] ∷ x.0, x.1)) r

pub data Mark : Type 0 where
  quotes separates returns feeds ordinary : Mark

unfoldable pub mark : ℕ → Mark
mark c =
    if c == quote
    then quotes
    else if c == comma
    then separates
    else if c == cr
    then returns
    else if c == lf
    then feeds
    else ordinary

unfoldable pub read : Place → List ℕ → Read
read place [] = none
read start (c ∷ text) = elim (mark c) [
  | quotes ↦ read quoted text
  | separates ↦ new_field (read start text)
  | returns ↦ read ending text
  | feeds ↦ none
  | ordinary ↦ add c (read plain text)
]
read plain (c ∷ text) = elim (mark c) [
  | quotes ↦ none
  | separates ↦ new_field (read start text)
  | returns ↦ read ending text
  | feeds ↦ none
  | ordinary ↦ add c (read plain text)
]
read quoted (c ∷ text) = elim (mark c) [ quotes ↦ read closing text | _ ↦ add c (read quoted text) ]
read closing (c ∷ text) = elim (mark c) [
  | quotes ↦ add c (read quoted text)
  | separates ↦ new_field (read start text)
  | returns ↦ read ending text
  | feeds ↦ none
  | ordinary ↦ none
]
read ending (c ∷ text) = elim (mark c) [ feeds ↦ some ([] ∷ [], text) | _ ↦ none ]

-- The text before what is read.
abbrev pub prepend : List ℕ → Read → Read
prepend [] r = r
prepend (c ∷ text) r = add c (prepend text r)

mark-ordinary : (c : ℕ) → needs_quotes c ≡ false → mark c ≡ ordinary
unfolding mark
mark-ordinary c h = ground arith

mark-quotes : (c : ℕ) → (c == quote) ≡ false → mark c ≢ quotes
unfolding mark
mark-quotes c h = ground arith

or-false : (a b : Bool) → (a || b) ≡ false → (a ≡ false) × (b ≡ false)
or-false false b h = (refl, h)
or-false true b h = cc

read-plain :
    (text tail : List ℕ)
    → any needs_quotes text ≡ false
    → read plain (text ++ tail) ≡ prepend text (read plain tail)
unfolding read
read-plain [] tail h = refl
read-plain (c ∷ text) tail h =
    let (none_here, none_later) = or-false (needs_quotes c) (any needs_quotes text) h in
    rw (read, mark-ordinary c none_here) (ap (add c) (read-plain text tail none_later))

-- A character between quotes that is no quote is read as itself.
read-inside :
    (c : ℕ) (text : List ℕ)
    → (c == quote) ≡ false
    → read quoted (c ∷ text) ≡ add c (read quoted text)
unfolding read
read-inside c text h = go (mark c) (mark-quotes c h)
  where
    go :
        (m : Mark)
        → m ≢ quotes
        → elim m as (λ x. Read) [ quotes ↦ read closing text | _ ↦ add c (read quoted text) ]
          ≡ add c (read quoted text)
    go quotes h = elim (h refl) [ ]
    go separates h = refl
    go returns h = refl
    go feeds h = refl
    go ordinary h = refl

read-quoted :
    (text tail : List ℕ)
    → read quoted (doubled text ++ quote ∷ tail) ≡ prepend text (read closing tail)
unfolding read mark
read-quoted [] tail = refl
read-quoted (c ∷ text) tail = elim (Bool-cases (c == quote)) [
  | inl e ↦ rw e (rw (eq_of_== c quote e) (ap (add quote) (read-quoted text tail)))
  | inr e ↦
      rw e (read-inside c (doubled text ++ quote ∷ tail) e ∙ ap (add c) (read-quoted text tail))
]

-- Where a field ends.
record EndsField (tail : List ℕ) : Type 0 where
  after_quote : read closing tail ≡ read plain tail
  at_once : read start tail ≡ read plain tail

read-escaped :
    (text tail : List ℕ)
    → EndsField tail
    → read start (escaped text ++ tail) ≡ prepend text (read plain tail)
unfolding read escaped mark
read-escaped text tail h = elim (Bool-cases (any needs_quotes text)) [
  | inl e ↦ rw e (
      rw (append_assoc (doubled text) (quote ∷ []) tail)
        (rw (read-quoted text tail) (ap (prepend text) h.after_quote)))
  | inr e ↦ rw e (bare text e)
]
  where
    bare :
        (text : List ℕ)
        → any needs_quotes text ≡ false
        → read start (text ++ tail) ≡ prepend text (read plain tail)
    bare [] e = h.at_once
    bare (c ∷ text) e =
        let (none_here, none_later) = or-false (needs_quotes c) (any needs_quotes text) e in
        rw (read, mark-ordinary c none_here) (ap (add c) (read-plain text tail none_later))

prepend-field :
    (text : List ℕ) (fields : List (List ℕ)) (rest : List ℕ)
    → prepend text (some ([] ∷ fields, rest)) ≡ some (text ∷ fields, rest)
prepend-field [] fields rest = refl
prepend-field (c ∷ text) fields rest = ap (add c) (prepend-field text fields rest)

comma-EndsField : (tail : List ℕ) → EndsField (comma ∷ tail)
unfolding read mark
comma-EndsField tail = record { after_quote = refl; at_once = refl }

line-EndsField : (rest : List ℕ) → EndsField (cr ∷ lf ∷ rest)
unfolding read mark
line-EndsField rest = record { after_quote = refl; at_once = refl }

read-separator : (tail : List ℕ) → read plain (comma ∷ tail) ≡ new_field (read start tail)
unfolding read mark
read-separator tail = refl

read-line_end : (rest : List ℕ) → read plain (cr ∷ lf ∷ rest) ≡ some ([] ∷ [], rest)
unfolding read mark
read-line_end rest = refl

-- What a cell's text reads as.
abbrev pub shown : Option (List ℕ) → List ℕ
shown value = guarded (text_of value)

read-join :
    (value : Option (List ℕ)) (values : List (Option (List ℕ))) (rest : List ℕ)
    → read start (join (map csv_cell (value ∷ values)) ++ cr ∷ lf ∷ rest)
      ≡ some (map shown (value ∷ values), rest)
unfolding csv_cell
read-join value [] rest =
    read-escaped (shown value) (cr ∷ lf ∷ rest) (line-EndsField rest)
    ∙ ap (prepend (shown value)) (read-line_end rest)
    ∙ prepend-field (shown value) [] rest
read-join value (next ∷ values) rest =
    let others : List ℕ = join (map csv_cell (next ∷ values)) in
    let tail : List ℕ = others ++ cr ∷ lf ∷ rest in
    ap (read start) (append_assoc (csv_cell value) (comma ∷ others) (cr ∷ lf ∷ rest))
    ∙ read-escaped (shown value) (comma ∷ tail) (comma-EndsField tail)
    ∙ ap (prepend (shown value)) (read-separator tail ∙ ap new_field (read-join next values rest))
    ∙ prepend-field (shown value) (map shown (next ∷ values)) rest

-- What a spreadsheet would take for a formula.
abbrev pub is_formula : List ℕ → Bool
is_formula [] = false
is_formula (c ∷ text) = starts_formula c

guarded-harmless : (text : List ℕ) → is_formula (guarded text) ≡ false
unfolding guarded
guarded-harmless [] = refl
guarded-harmless (c ∷ text) = elim (Bool-cases (starts_formula c)) [
  | inl e ↦ rw e refl
  | inr e ↦ rw e e
]

All-harmless :
    (values : List (Option (List ℕ))) → All (λ field. is_formula field ≡ false) (map shown values)
All-harmless [] = tt
All-harmless (value ∷ values) = (guarded-harmless (text_of value), All-harmless values)

-- A reader that follows RFC 4180 reads a line of the export, whatever text follows, as one record with the
-- cells' texts, each with an apostrophe before it where it began like a formula, and stops where the
-- line ends; and no field that it reads begins like a formula.
pub read-csv_line :
    (value : Option (List ℕ)) (values : List (Option (List ℕ))) (rest : List ℕ)
    → (read start (csv_line (value ∷ values) ++ rest) ≡ some (map shown (value ∷ values), rest))
      × All (λ field. is_formula field ≡ false) (map shown (value ∷ values))
unfolding csv_line
read-csv_line value values rest = (
  ap (read start) (append_assoc (join (map csv_cell (value ∷ values))) (cr ∷ lf ∷ []) rest)
      ∙ read-join value values rest,
  All-harmless (value ∷ values),
)
