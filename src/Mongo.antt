-- ===== src/Mongo.antt =====
-- MongoDB, reached through mongoose, is not part of the repository: its operations are the fields of
-- `Mongo`, and `IsDocumented` says what its manual promises of them. A query is a test on documents
-- and an update a function on one; a collection is the list of its documents, in no promised order.
pub mod Memory
pub mod Facts
use chat_app_backend.Prelude.{
  IsOrdered, IsComparison, ℕ, ◌≡◌, Bool, true, false, ◌&&◌, Option, none, some, List, [], ◌∷◌, ◌++◌,
  map, count, any, All, filterb, not, if◌then◌else◌,
}

pub record Mongo : Type 1 where
  pub find_one : (D : Type 0) → (D → Bool) → List D → Option D
  pub find : (D : Type 0) → (D → Bool) → List D → List D
  -- The new collection, and the document that was changed as it was before.
  pub update_one : (D : Type 0) → (D → Bool) → (D → D) → List D → List D × Option D
  pub update_many : (D : Type 0) → (D → Bool) → (D → D) → List D → List D
  -- `none` is the duplicate-key error; the first argument is the collection's unique index.
  pub insert_one : (D : Type 0) → (D → D → Bool) → D → List D → Option (List D)
  -- `updateOne` with `upsert`: the document is the one to insert where none matches.
  pub upsert_one : (D : Type 0) → (D → Bool) → (D → D) → D → List D → List D
  -- Whether a document was deleted.
  pub delete_one : (D : Type 0) → (D → Bool) → List D → List D × Bool
  pub delete_many : (D : Type 0) → (D → Bool) → List D → List D
  -- `find(filter).sort(order)`; the first test says which of two documents may stand first.
  pub find_sorted : (D : Type 0) → (D → D → Bool) → (D → Bool) → List D → List D

-- A document that matches, or none if none does.
pub data Finds {D : Type 0} (p : D → Bool) (ds : List D) (r : Option D) : Type 0 where
  absent : count p ds ≡ 0 → r ≡ none → Finds p ds r
  present : (xs ys : List D) (d : D) → ds ≡ xs ++ d ∷ ys → p d ≡ true → r ≡ some d → Finds p ds r

-- One document that matches is replaced, if there is one, and nothing else changes.
pub data Updates {D : Type 0} (p : D → Bool) (u : D → D) (ds after : List D) (r : Option D)
    : Type 0 where
  missed : count p ds ≡ 0 → after ≡ ds → r ≡ none → Updates p u ds after r
  changed :
      (xs ys : List D) (d : D)
      → ds ≡ xs ++ d ∷ ys
      → p d ≡ true
      → after ≡ xs ++ u d ∷ ys
      → r ≡ some d
      → Updates p u ds after r

-- An insert is refused exactly when a stored document has the same key.
pub data Inserts {D : Type 0} (same_key : D → D → Bool) (d : D) (ds : List D) (r : Option (List D))
    : Type 0 where
  refused : any (same_key d) ds ≡ true → r ≡ none → Inserts same_key d ds r
  stored :
      (xs ys : List D)
      → any (same_key d) ds ≡ false
      → ds ≡ xs ++ ys
      → r ≡ some (xs ++ d ∷ ys)
      → Inserts same_key d ds r

pub data Upserts {D : Type 0} (p : D → Bool) (u : D → D) (d : D) (ds after : List D) : Type 0 where
  existing :
      (xs ys : List D) (e : D)
      → ds ≡ xs ++ e ∷ ys
      → p e ≡ true
      → after ≡ xs ++ u e ∷ ys
      → Upserts p u d ds after
  inserted :
      (xs ys : List D)
      → count p ds ≡ 0
      → ds ≡ xs ++ ys
      → after ≡ xs ++ d ∷ ys
      → Upserts p u d ds after

-- One document that matches is gone, if there was one.
pub data Deletes {D : Type 0} (p : D → Bool) (ds after : List D) (r : Bool) : Type 0 where
  kept : count p ds ≡ 0 → after ≡ ds → r ≡ false → Deletes p ds after r
  deleted :
      (xs ys : List D) (d : D)
      → ds ≡ xs ++ d ∷ ys
      → p d ≡ true
      → after ≡ xs ++ ys
      → r ≡ true
      → Deletes p ds after r

abbrev pub update_if : {D : Type 0} → (D → Bool) → (D → D) → D → D
update_if p u d = if p d then u d else d

pub record IsDocumented (mongo : Mongo) : Type 1 where
  pub find_one-Finds :
      (D : Type 0) (p : D → Bool) (ds : List D) → Finds p ds (mongo.find_one D p ds)
  -- The documents that match, each as often as it is stored.
  pub count-find :
      (D : Type 0) (p q : D → Bool) (ds : List D)
      → count q (mongo.find D p ds) ≡ count (λ d. p d && q d) ds
  pub update_one-Updates :
      (D : Type 0) (p : D → Bool) (u : D → D) (ds : List D)
      → Updates p u ds (mongo.update_one D p u ds).0 (mongo.update_one D p u ds).1
  pub update_many_lem :
      (D : Type 0) (p : D → Bool) (u : D → D) (ds : List D)
      → mongo.update_many D p u ds ≡ map (update_if p u) ds
  pub insert_one-Inserts :
      (D : Type 0) (same_key : D → D → Bool) (d : D) (ds : List D)
      → Inserts same_key d ds (mongo.insert_one D same_key d ds)
  pub upsert_one-Upserts :
      (D : Type 0) (p : D → Bool) (u : D → D) (d : D) (ds : List D)
      → Upserts p u d ds (mongo.upsert_one D p u d ds)
  pub delete_one-Deletes :
      (D : Type 0) (p : D → Bool) (ds : List D)
      → Deletes p ds (mongo.delete_one D p ds).0 (mongo.delete_one D p ds).1
  pub delete_many_lem :
      (D : Type 0) (p : D → Bool) (ds : List D)
      → mongo.delete_many D p ds ≡ filterb (λ d. not (p d)) ds
  pub count-find_sorted :
      (D : Type 0) (before : D → D → Bool) (p q : D → Bool) (ds : List D)
      → count q (mongo.find_sorted D before p ds) ≡ count (λ d. p d && q d) ds
  pub find_sorted-IsOrdered :
      (D : Type 0) (before : D → D → Bool) (p : D → Bool) (ds : List D)
      → IsComparison before
      → IsOrdered before (mongo.find_sorted D before p ds)
