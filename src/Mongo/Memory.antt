-- ===== src/Mongo/Memory.antt =====
-- A small engine that works on the list itself. It shows that what is asked of MongoDB can be met,
-- and it runs the examples.
use chat_app_backend.Prelude.{
  sort, count-filterb, count-sort, sort-IsOrdered, ◌≡◌, refl, ap, ◌∙◌, inl, inr, Bool, true, false,
  not, Option, none, some, List, [], ◌∷◌, map, any, filterb, if◌then◌else◌, arith, Bool-cases,
}
use chat_app_backend.Mongo.{
  Mongo, Finds, absent, present, Updates, missed, changed, Inserts, refused, stored, Upserts,
  existing, inserted, Deletes, kept, deleted, update_if, IsDocumented,
}

module _ {D : Type 0} where
  abbrev first : (D → Bool) → List D → Option D
  first p [] = none
  first p (d ∷ ds) = if p d then some d else first p ds

  abbrev keep_head : D → List D × Option D → List D × Option D
  keep_head d (ds, r) = (d ∷ ds, r)

  abbrev change_first : (D → Bool) → (D → D) → List D → List D × Option D
  change_first p u [] = ([], none)
  change_first p u (d ∷ ds) = if p d then (u d ∷ ds, some d) else keep_head d (change_first p u ds)

  first-Finds : (p : D → Bool) (ds : List D) → Finds p ds (first p ds)
  first-Finds p [] = absent refl refl
  first-Finds p (d ∷ ds) = elim (Bool-cases (p d)) [
    | inl e ↦ rw e (present [] ds d refl e refl)
    | inr e ↦ later e (first-Finds p ds)
  ]
    where
      later : p d ≡ false → Finds p ds (first p ds) → Finds p (d ∷ ds) (first p (d ∷ ds))
      later e (absent n r) = absent (rw e (omega arith)) (rw e r)
      later e (present xs ys f s m r) = present (d ∷ xs) ys f (ap (◌∷◌ d) s) m (rw e r)

  change_first-Updates :
      (p : D → Bool) (u : D → D) (ds : List D)
      → Updates p u ds (change_first p u ds).0 (change_first p u ds).1
  change_first-Updates p u [] = missed refl refl refl
  change_first-Updates p u (d ∷ ds) = elim (Bool-cases (p d)) [
    | inl e ↦ changed [] ds d refl e (rw e) (rw e)
    | inr e ↦ later e (change_first-Updates p u ds)
  ]
    where
      later :
          p d ≡ false
          → Updates p u ds (change_first p u ds).0 (change_first p u ds).1
          → Updates p u (d ∷ ds) (change_first p u (d ∷ ds)).0 (change_first p u (d ∷ ds)).1
      later e (missed n a r) = missed (rw e (omega arith)) (rw e (ap (◌∷◌ d) a)) (rw e r)
      later e (changed xs ys f s m a r) =
          changed (d ∷ xs) ys f (ap (◌∷◌ d) s) m (rw e (ap (◌∷◌ d) a)) (rw e r)

module _ {D : Type 0} where
  abbrev keep_first : D → List D × Bool → List D × Bool
  keep_first d (ds, r) = (d ∷ ds, r)

  abbrev delete_first : (D → Bool) → List D → List D × Bool
  delete_first p [] = ([], false)
  delete_first p (d ∷ ds) = if p d then (ds, true) else keep_first d (delete_first p ds)

  delete_first-Deletes :
      (p : D → Bool) (ds : List D) → Deletes p ds (delete_first p ds).0 (delete_first p ds).1
  delete_first-Deletes p [] = kept refl refl refl
  delete_first-Deletes p (d ∷ ds) = elim (Bool-cases (p d)) [
    | inl e ↦ deleted [] ds d refl e (rw e) (rw e)
    | inr e ↦ later e (delete_first-Deletes p ds)
  ]
    where
      later :
          p d ≡ false
          → Deletes p ds (delete_first p ds).0 (delete_first p ds).1
          → Deletes p (d ∷ ds) (delete_first p (d ∷ ds)).0 (delete_first p (d ∷ ds)).1
      later e (kept n a r) = kept (rw e (omega arith)) (rw e (ap (◌∷◌ d) a)) (rw e r)
      later e (deleted xs ys f s m a r) =
          deleted (d ∷ xs) ys f (ap (◌∷◌ d) s) m (rw e (ap (◌∷◌ d) a)) (rw e r)

abbrev pub insert_new : {D : Type 0} → (D → D → Bool) → D → List D → Option (List D)
insert_new same_key d ds = if any (same_key d) ds then none else some (d ∷ ds)

insert_new-Inserts :
    {D : Type 0} (same_key : D → D → Bool) (d : D) (ds : List D)
    → Inserts same_key d ds (insert_new same_key d ds)
insert_new-Inserts same_key d ds = elim (Bool-cases (any (same_key d) ds)) [
  | inl e ↦ refused e (rw e)
  | inr e ↦ stored [] ds e refl (rw e)
]

abbrev put : {D : Type 0} → D → List D × Option D → List D
put d (ds, none) = d ∷ ds
put d (ds, some _) = ds

put-Upserts :
    {D : Type 0} (p : D → Bool) (u : D → D) (d : D) (ds : List D) (r : List D × Option D)
    → Updates p u ds r.0 r.1
    → Upserts p u d ds (put d r)
put-Upserts p u d ds (after, none) (missed n a e) = inserted [] ds n refl (rw a)
put-Upserts p u d ds (after, some f) (missed n a e) = cc
put-Upserts p u d ds (after, none) (changed xs ys f s m a e) = cc
put-Upserts p u d ds (after, some g) (changed xs ys f s m a e) = existing xs ys f s m a

abbrev pub memory : Mongo
memory = record {
  find_one = λ D p ds. first p ds;
  find = λ D p ds. filterb p ds;
  update_one = λ D p u ds. change_first p u ds;
  update_many = λ D p u ds. map (update_if p u) ds;
  insert_one = λ D same_key d ds. insert_new same_key d ds;
  upsert_one = λ D p u d ds. put d (change_first p u ds);
  delete_one = λ D p ds. delete_first p ds;
  delete_many = λ D p ds. filterb (λ d. not (p d)) ds;
  find_sorted = λ D before p ds. sort before (filterb p ds);
}

pub memory-IsDocumented : IsDocumented memory
memory-IsDocumented = record {
  find_one-Finds = λ D p ds. first-Finds p ds;
  count-find = λ D p q ds. count-filterb p q ds;
  update_one-Updates = λ D p u ds. change_first-Updates p u ds;
  update_many_lem = λ D p u ds. refl;
  insert_one-Inserts = λ D same_key d ds. insert_new-Inserts same_key d ds;
  upsert_one-Upserts =
      λ D p u d ds. put-Upserts p u d ds (change_first p u ds) (change_first-Updates p u ds);
  delete_one-Deletes = λ D p ds. delete_first-Deletes p ds;
  delete_many_lem = λ D p ds. refl;
  count-find_sorted = λ D before p q ds. count-sort before q (filterb p ds) ∙ count-filterb p q ds;
  find_sorted-IsOrdered = λ D before p ds c. sort-IsOrdered before c (filterb p ds);
}
