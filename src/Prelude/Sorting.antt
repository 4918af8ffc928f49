-- ===== src/Prelude/Sorting.antt =====
-- Stable sorting by a Boolean test that says which of two elements may stand first.
use Prim.Native.Nat.{◌+◌}
use mathlib.Core.Path.{◌≡◌, refl, ap, ◌∙◌}
use mathlib.Core.Logic.{inl, inr}
use mathlib.Core.Bool.{Bool, true, false, ◌&&◌}
use mathlib.Core.List.{List, [], ◌∷◌}
use native.Mathlib.Omega.{arith}
use chat_app_backend.Prelude.Tests.{if◌then◌else◌, one_if, Bool-cases}
use chat_app_backend.Prelude.Lists.{All, count, filterb}

-- Every element of the list may stand before all that follow it.
abbrev pub IsOrdered : {D : Type 0} → (D → D → Bool) → List D → Type 0
IsOrdered before [] = Unit
IsOrdered before (d ∷ ds) = All (λ e. before d e ≡ true) ds × IsOrdered before ds

-- A test by which elements can be sorted: of any two one may stand first, and it is transitive.
pub record IsComparison {D : Type 0} (before : D → D → Bool) : Type 0 where
  pub total : (d e : D) → before d e ≡ false → before e d ≡ true
  pub trans : (c d e : D) → before c d ≡ true → before d e ≡ true → before c e ≡ true

module _ {D : Type 0} where
  abbrev pub place : (D → D → Bool) → D → List D → List D
  place before d [] = d ∷ []
  place before d (e ∷ es) = if before d e then d ∷ e ∷ es else e ∷ place before d es

  abbrev pub sort : (D → D → Bool) → List D → List D
  sort before [] = []
  sort before (d ∷ ds) = place before d (sort before ds)

  pub count-filterb :
      (p q : D → Bool) (ds : List D) → count q (filterb p ds) ≡ count (λ d. p d && q d) ds
  count-filterb p q [] = refl
  count-filterb p q (d ∷ ds) = elim (Bool-cases (p d)) [
    | inl e ↦ rw e (omega (arith, count-filterb p q ds))
    | inr e ↦ rw e (omega (arith, count-filterb p q ds))
  ]

  count-place :
      (before : D → D → Bool) (q : D → Bool) (d : D) (es : List D)
      → count q (place before d es) ≡ one_if (q d) + count q es
  count-place before q d [] = refl
  count-place before q d (e ∷ es) = elim (Bool-cases (before d e)) [
    | inl h ↦ rw h
    | inr h ↦ rw h (omega (arith, count-place before q d es))
  ]

  pub count-sort :
      (before : D → D → Bool) (q : D → Bool) (ds : List D) → count q (sort before ds) ≡ count q ds
  count-sort before q [] = refl
  count-sort before q (d ∷ ds) =
      count-place before q d (sort before ds) ∙ ap (◌+◌ (one_if (q d))) (count-sort before q ds)

  module _ (before : D → D → Bool) (c : IsComparison before) where
    All-place :
        (f d : D) (es : List D)
        → before f d ≡ true
        → All (λ e. before f e ≡ true) es
        → All (λ e. before f e ≡ true) (place before d es)
    All-place f d [] h a = (h, tt)
    All-place f d (e ∷ es) h a = elim (Bool-cases (before d e)) [
      | inl t ↦ rw t (h, a)
      | inr t ↦ rw t (a.0, All-place f d es h a.1)
    ]

    All-later :
        (d e : D) (es : List D)
        → before d e ≡ true
        → All (λ f. before e f ≡ true) es
        → All (λ f. before d f ≡ true) es
    All-later d e [] h a = tt
    All-later d e (f ∷ es) h a = (c.trans d e f h a.0, All-later d e es h a.1)

    place-IsOrdered :
        (d : D) (es : List D) → IsOrdered before es → IsOrdered before (place before d es)
    place-IsOrdered d [] o = (tt, tt)
    place-IsOrdered d (e ∷ es) o = elim (Bool-cases (before d e)) [
      | inl t ↦ rw t ((t, All-later d e es t o.0), o)
      | inr t ↦ rw t (All-place e d es (c.total d e t) o.0, place-IsOrdered d es o.1)
    ]

    pub sort-IsOrdered : (ds : List D) → IsOrdered before (sort before ds)
    sort-IsOrdered [] = tt
    sort-IsOrdered (d ∷ ds) = place-IsOrdered d (sort before ds) (sort-IsOrdered ds)
