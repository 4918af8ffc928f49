-- ===== src/Mongo/Facts.antt =====
-- What a write does to counts and sums over a collection.
use chat_app_backend.Prelude.{
  none, some, ◌++◌, sym, ap, ◌∙◌, ℕ, ◌+◌, ◌≡◌, ◌⊎◌, inl, inr, Bool, true, Option, List, ◌∷◌, arith,
  count, total, one_if, count-append, total-append, All, All-append, All-split,
}
use chat_app_backend.Mongo.{Updates, missed, changed, Finds, absent, present}

-- One document matched, and every sum and count changes by it alone.
pub record Changed {D : Type 0} (p : D → Bool) (u : D → D) (ds after : List D) (r : Option D)
    (d : D) : Type 0 where
  pub matched : p d ≡ true
  pub result : r ≡ some d
  pub sums : (f : D → ℕ) → total f after + f d ≡ total f ds + f (u d)
  pub counts : (q : D → Bool) → count q after + one_if (q d) ≡ count q ds + one_if (q (u d))

module _ {D : Type 0} {p : D → Bool} {u : D → D} {ds after : List D} {r : Option D} where
  pub Updates-cases :
      Updates p u ds after r
      → ((count p ds ≡ 0) × (after ≡ ds) × (r ≡ none)) ⊎ ((d : D) × Changed p u ds after r d)
  Updates-cases (missed n a e) = inl (n, a, e)
  Updates-cases (changed xs ys d s m a e) = inr (
    d,
    record {
      matched = m;
      result = e;
      sums = λ f. omega (
        arith,
        ap_total f s,
        ap_total f a,
        total-append f xs (d ∷ ys),
        total-append f xs (u d ∷ ys),
      );
      counts = λ q. omega (
        arith,
        ap_count q s,
        ap_count q a,
        count-append q xs (d ∷ ys),
        count-append q xs (u d ∷ ys),
      );
    },
  )
    where
      ap_total : (f : D → ℕ) {es fs : List D} → es ≡ fs → total f es ≡ total f fs
      ap_total f e i = total f (e i)

      ap_count : (q : D → Bool) {es fs : List D} → es ≡ fs → count q es ≡ count q fs
      ap_count q e i = count q (e i)

  -- What holds of every document, and of what the update makes of one, holds afterwards.
  pub All-Updates :
      (P : D → Type 0)
      → ((d : D) → p d ≡ true → P d → P (u d))
      → Updates p u ds after r
      → All P ds
      → All P after
  All-Updates P keep (missed n a e) h = rw a h
  All-Updates P keep (changed xs ys d s m a e) h =
      let (front, back) = All-split P xs (d ∷ ys) (rw s at h) in
      rw a (All-append P xs (u d ∷ ys) front (keep d m back.0, back.1))

abbrev or_else : {D : Type 0} → D → Option D → D
or_else d none = d
or_else d (some x) = x

-- A document that was found is stored, and matches.
pub found-stored :
    {D : Type 0} {p : D → Bool} {ds : List D} {o : Option D} (d : D)
    → Finds p ds o
    → o ≡ some d
    → (xs : List D) × ((ys : List D) × ((ds ≡ xs ++ d ∷ ys) × (p d ≡ true)))
found-stored d (absent n r) e = cc
found-stored {p} d (present xs ys f s m r) e =
    let same : f ≡ d = ap (or_else d) (sym r ∙ e) in
    (xs, (ys, (s ∙ ap (λ z. xs ++ z ∷ ys) same, sym (ap p same) ∙ m)))
