-- ===== src/Auth/Guards.antt =====
-- src/common/guards: the middleware before the routes. A token is a number; comparing two in constant time
-- is comparing them.
pub mod Safety
use chat_app_backend.Prelude.{
  ℕ, Bool, true, false, not, ◌||◌, ◌&&◌, Option, none, some, List, all, ◌==◌, if◌then◌else◌,
}
use chat_app_backend.Access.{Role, Permission, has_permission}
use chat_app_backend.Documents.{User, is_approved}
use chat_app_backend.Errors.{HttpError, Failure, http, unauthorized, forbidden}
use chat_app_backend.Mongo.{Mongo}
use chat_app_backend.Server.{M, pure, throw, ◌>>=◌, ◌>>◌, access, try_catch}

pub record CurrentUser : Type 0 where
  pub id : ℕ
  pub name : ℕ
  pub email : ℕ
  pub role : Role

abbrev pub current_user_of : User → CurrentUser
current_user_of u = record { id = u.id; name = u.name; email = u.email; role = u.role }

-- What the session keeps: its id in the store, whom it belongs to, and its CSRF token.
pub record Session : Type 0 where
  pub id : ℕ
  pub user_id : Option ℕ
  pub csrf_token : Option ℕ

-- `SAFE_METHODS` and the others.
pub data Method : Type 0 where
  get head options post put patch delete : Method

abbrev pub is_safe : Method → Bool
is_safe get = true
is_safe head = true
is_safe options = true
is_safe _ = false

unfoldable pub tokens_match : Option ℕ → Option ℕ → Bool
tokens_match (some received) (some expected) = received == expected
tokens_match _ _ = false

abbrev pub csrf_token_invalid : Failure
csrf_token_invalid =
    http (record { status_code = 403; code = "CSRF_TOKEN_INVALID"; message = "Invalid CSRF token" })

unfoldable pub require_csrf_token : Method → Option ℕ → Session → M (Unit {0})
require_csrf_token method header session =
    if is_safe method || tokens_match header session.csrf_token
    then pure tt
    else throw csrf_token_invalid

-- `destroy` is what the session store, which is not part of the repository, leaves of its sessions.
module _ (mongo : Mongo) (destroy : ℕ → List ℕ → List ℕ) where
  -- The callback takes no notice of an error.
  unfoldable pub destroy_session : Session → M (Unit {0})
  destroy_session session =
      try_catch (access λ now db. (record db { sessions = destroy session.id db.sessions }, tt))
        (λ error. pure tt)

  unfoldable pub refuse : Session → M CurrentUser
  unfolding destroy_session
  refuse session = destroy_session session >> throw (http unauthorized)

  unfoldable pub admit_user : Session → Option User → M CurrentUser
  unfolding refuse
  admit_user session none = refuse session
  admit_user session (some u) =
      if is_approved u.status then pure (current_user_of u) else refuse session

  unfoldable pub require_auth_of : Session → Option ℕ → M CurrentUser
  unfolding admit_user
  require_auth_of session none = throw (http unauthorized)
  require_auth_of session (some user_id) = do
    user ← access λ now db. (db, mongo.find_one User (λ u. u.id == user_id) db.users)
    admit_user session user

  unfoldable pub require_auth : Session → M CurrentUser
  require_auth session = require_auth_of session session.user_id

unfoldable pub require_permission : List Permission → CurrentUser → M (Unit {0})
require_permission required user =
    if all (has_permission user.role) required
    then pure tt
    else throw (http (forbidden "Insufficient permissions"))

-- The guards of the routes of agents.routes.ts, in their order.
unfoldable pub guarded_route :
    Mongo → (ℕ → List ℕ → List ℕ) → Method → Option ℕ → Session → List Permission → M CurrentUser
guarded_route mongo destroy method header session required = do
  user ← require_auth mongo destroy session
  require_csrf_token method header session
  require_permission required user
  pure user
