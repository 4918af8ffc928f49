-- ===== src/Auth/Service.antt =====
-- src/modules/auth/auth.service.ts. bcrypt is a parameter; a salt stands for what it draws at random.
pub mod Safety
use chat_app_backend.Prelude.{
  ℕ, ◌≡◌, Bool, true, false, Option, none, some, List, ◌==◌, if◌then◌else◌,
}
use chat_app_backend.Access.{Role}
use chat_app_backend.Documents.{User, AccountStatus, pending, approved, rejected}
use chat_app_backend.Errors.{HttpError, Failure, http, conflict, duplicate_key}
use chat_app_backend.Mongo.{Mongo}
use chat_app_backend.Server.{Db, M, pure, throw, ◌>>=◌, access, try_catch}
use chat_app_backend.Chat.Conversations.{or_throw}
use chat_app_backend.Users.Service.{PublicUser, to_public_user}

pub record Bcrypt : Type 0 where
  pub hash : (salt password : ℕ) → ℕ
  pub compare : (password hash : ℕ) → Bool

-- A hash belongs to the password that it was made of.
pub record IsBcrypt (bcrypt : Bcrypt) : Type 0 where
  pub compare-hash :
      (salt password : ℕ) → bcrypt.compare password (bcrypt.hash salt password) ≡ true

pub record RegisterInput : Type 0 where
  pub name : ℕ
  pub email : ℕ
  pub password : ℕ

pub record LoginInput : Type 0 where
  pub email : ℕ
  pub password : ℕ

abbrev pub email_in_use : Failure
email_in_use = http (conflict "EMAIL_IN_USE" "An account already uses this email address")

abbrev pub invalid_credentials : Failure
invalid_credentials = http (record {
  status_code = 401;
  code = "INVALID_CREDENTIALS";
  message = "Invalid email or password";
})

abbrev pub account_pending : Failure
account_pending = http (record {
  status_code = 403;
  code = "ACCOUNT_PENDING";
  message = "Your account is pending admin approval";
})

abbrev pub account_rejected : Failure
account_rejected = http (record {
  status_code = 403;
  code = "ACCOUNT_REJECTED";
  message = "Your account registration was rejected";
})

-- The unique index on the email.
abbrev pub same_email : User → User → Bool
same_email u v = u.email == v.email

abbrev pub has_email : ℕ → User → Bool
has_email email u = u.email == email

module _ (bcrypt : Bcrypt) where
  abbrev pub new_user : (id salt : ℕ) → RegisterInput → ℕ → User
  new_user id salt input now = record {
    id = id;
    name = input.name;
    email = input.email;
    password_hash = bcrypt.hash salt input.password;
    role = Role.user;
    status = pending;
    created_at = now;
  }

  -- `user?.passwordHash ?? DUMMY_HASH`; 0 stands for the dummy password and its salt.
  abbrev pub hash_of : Option User → ℕ
  hash_of none = bcrypt.hash 0 0
  hash_of (some u) = u.password_hash

  unfoldable pub admitted : User → AccountStatus → M PublicUser
  admitted u pending = throw account_pending
  admitted u rejected = throw account_rejected
  admitted u approved = pure (to_public_user u)

  unfoldable pub checked : Option User → Bool → M PublicUser
  unfolding admitted
  checked (some u) true = admitted u u.status
  checked _ _ = throw invalid_credentials

module _ (mongo : Mongo) (bcrypt : Bcrypt) where
  unfoldable pub insert_user : Db → User → Option (List User) → Db × Option User
  insert_user db u none = (db, none)
  insert_user db u (some us) = (record db { users = us }, some u)

  -- Only a duplicate key becomes a conflict.
  unfoldable pub explain : Failure → M PublicUser
  explain duplicate_key = throw email_in_use
  explain error = throw error

  unfoldable pub create_user : (id salt : ℕ) → RegisterInput → M PublicUser
  unfolding insert_user
  create_user id salt input = do
    stored ← access λ now db.
        let u = new_user bcrypt id salt input now in
        insert_user db u (mongo.insert_one User same_email u db.users)
    user ← or_throw duplicate_key stored
    pure (to_public_user user)

  unfoldable pub register : (id salt : ℕ) → RegisterInput → M PublicUser
  unfolding explain
  register id salt input = try_catch (create_user id salt input) explain

  unfoldable pub validate_credentials : LoginInput → M PublicUser
  validate_credentials input = do
    user ← access λ now db. (db, mongo.find_one User (has_email input.email) db.users)
    checked bcrypt user (bcrypt.compare input.password (hash_of bcrypt user))
