-- ===== src/Prelude/Sets.antt =====
-- Sets of numbers as lists, read by `any`, with the Boolean laws that this takes.
use Prim.Native.Nat.{ℕ}
use mathlib.Core.Path.{◌≡◌, refl, sym, ap, ◌∙◌}
use mathlib.Core.Logic.{inl, inr}
use mathlib.Core.Bool.{Bool, true, false, not, ◌&&◌, ◌||◌}
use mathlib.Core.List.{List, [], ◌∷◌, ◌++◌}
use native.Mathlib.Omega.{arith}
use chat_app_backend.Prelude.Tests.{◌==◌, Bool-cases, ==_comm}
use chat_app_backend.Prelude.Lists.{any, filterb}

pub or_assoc : (a b c : Bool) → (a || b || c) ≡ (a || (b || c))
or_assoc true b c = refl
or_assoc false b c = refl

pub or_false : (b : Bool) → (b || false) ≡ b
or_false true = refl
or_false false = refl

pub or_true : (b : Bool) → (b || true) ≡ true
or_true true = refl
or_true false = refl

pub and_true : (b : Bool) → (b && true) ≡ b
and_true true = refl
and_true false = refl

pub absorbed : (a b c : Bool) → (a ≡ true → c ≡ true) → (b && not c) ≡ ((a || b) && not c)
absorbed false b c h = refl
absorbed true true true h = refl
absorbed true false true h = refl
absorbed true b false h = let k = h refl in cc

pub spared : (a b c : Bool) → (a ≡ true → c ≡ false) → (a || (b && not c)) ≡ ((a || b) && not c)
spared false b c h = refl
spared true b false h = refl
spared true b true h = let k = h refl in cc

pub any-snoc :
    (t s : ℕ) (set : List ℕ)
    → any (λ x. x == t) (set ++ s ∷ []) ≡ (any (λ x. x == t) set || (t == s))
any-snoc t s [] = or_false (s == t) ∙ ==_comm s t
any-snoc t s (x ∷ set) =
    ap (λ r. (x == t) || r) (any-snoc t s set)
    ∙ sym (or_assoc (x == t) (any (λ x. x == t) set) (t == s))

pub any-filterb :
    (t s : ℕ) (set : List ℕ)
    → any (λ x. x == t) (filterb (λ x. not (x == s)) set) ≡ (any (λ x. x == t) set && not (t == s))
any-filterb t s [] = refl
any-filterb t s (x ∷ set) = elim (Bool-cases (x == s)) [
  | inl e ↦ rw e (
      any-filterb t s set
      ∙ absorbed (x == t) (any (λ y. y == t) set) (t == s) (λ h. ground (arith, e, h)))
  | inr e ↦ rw e (
      ap (λ r. (x == t) || r) (any-filterb t s set)
      ∙ spared (x == t) (any (λ y. y == t) set) (t == s) (λ h. ground (arith, e, h)))
]
