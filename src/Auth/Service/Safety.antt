-- ===== src/Auth/Service/Safety.antt =====
-- Nobody logs in without an approved account and its password.
use chat_app_backend.Prelude.{
  ℕ, ◌≡◌, refl, sym, ap, true, some, List, ◌∷◌, ◌++◌, inl, inr, Bool-cases, Option-cases, eq_of_==,
}
use chat_app_backend.Documents.{User, AccountStatus, pending, approved, rejected, is_approved}
use chat_app_backend.Errors.{Result, ok, err, err≢ok}
use chat_app_backend.Mongo.{Mongo, IsDocumented}
use chat_app_backend.Mongo.Facts.{found-stored}
use chat_app_backend.Server.{Db, quiet, access}
use chat_app_backend.Users.Service.{PublicUser, to_public_user}
use chat_app_backend.Auth.Service.{
  Bcrypt, LoginInput, has_email, admitted, checked, validate_credentials,
}

-- The account that somebody logged in to.
pub record Authenticated (bcrypt : Bcrypt) (input : LoginInput) (users : List User) (u : PublicUser)
    : Type 0 where
  pub before : List User
  pub after : List User
  pub user : User
  pub is_stored : users ≡ before ++ user ∷ after
  pub by_email : user.email ≡ input.email
  pub by_password : bcrypt.compare input.password user.password_hash ≡ true
  pub is_active : is_approved user.status ≡ true
  pub shown : u ≡ to_public_user user

module _ (mongo : Mongo) (laws : IsDocumented mongo) (bcrypt : Bcrypt) where
  abbrev value : PublicUser → Result PublicUser → PublicUser
  value u (ok v) = v
  value u (err e) = u

  -- Of the statuses only an approved one lets a user in.
  admitted-Authenticated :
      (input : LoginInput) (db : Db) (now : ℕ) (x : User) (u : PublicUser) (s : AccountStatus)
      → mongo.find_one User (has_email input.email) db.users ≡ some x
      → bcrypt.compare input.password x.password_hash ≡ true
      → x.status ≡ s
      → (admitted bcrypt x s (quiet db now)).0 ≡ ok u
      → Authenticated bcrypt input db.users u
  unfolding admitted
  admitted-Authenticated input db now x u pending e t q h = elim (err≢ok h) [ ]
  admitted-Authenticated input db now x u rejected e t q h = elim (err≢ok h) [ ]
  admitted-Authenticated input db now x u approved e t q h =
      let (xs, (ys, (st, ma))) =
        found-stored x (laws.find_one-Finds User (has_email input.email) db.users) e in
      record {
        before = xs;
        after = ys;
        user = x;
        is_stored = st;
        by_email = eq_of_== x.email input.email ma;
        by_password = t;
        is_active = rw q refl;
        shown = sym (ap (value u) h);
      }

  -- A check of credentials that nothing interrupts succeeds only for a stored user with that email, whose
  -- password hash compares with that password and whose status is approved, and answers with what
  -- is public of that user.
  pub validate_credentials-Authenticated :
      (input : LoginInput) (db : Db) (now : ℕ) (u : PublicUser)
      → (validate_credentials mongo bcrypt input (quiet db now)).0 ≡ ok u
      → Authenticated bcrypt input db.users u
  unfolding validate_credentials checked admitted access
  validate_credentials-Authenticated input db now u h =
      elim (Option-cases (mongo.find_one User (has_email input.email) db.users)) [
        | inl e ↦ elim (err≢ok (rw e at h)) [ ]
        | inr (x, e) ↦ elim (Bool-cases (bcrypt.compare input.password x.password_hash)) [
          | inr f ↦ elim (err≢ok (rw (e, f) at h)) [ ]
          | inl t ↦ admitted-Authenticated input db now x u x.status e t refl (rw (e, t) at h)
        ]
      ]
