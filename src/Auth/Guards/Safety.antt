-- ===== src/Auth/Guards/Safety.antt =====
-- Nobody passes the guards of a route without what they ask for.
use chat_app_backend.Prelude.{
  ℕ, ◌≡◌, ◌≢◌, ◌⊎◌, ap, sym, ◌∙◌, Bool, true, false, ◌||◌, Option, none, some, List, [], ◌∷◌, ◌++◌,
  all, All, ◌==◌, inl, inr, Bool-cases, Option-cases, eq_of_==,
}
use chat_app_backend.Access.{Permission, has_permission}
use chat_app_backend.Documents.{User, is_approved}
use chat_app_backend.Errors.{Result, ok, err, err≢ok}
use chat_app_backend.Mongo.{Mongo, IsDocumented}
use chat_app_backend.Mongo.Facts.{found-stored}
use chat_app_backend.Server.{Db, quiet, access}
use chat_app_backend.Auth.Guards.{
  CurrentUser, current_user_of, Session, Method, is_safe, tokens_match, require_csrf_token,
  require_auth, require_auth_of, admit_user, refuse, destroy_session, require_permission,
  guarded_route,
}

-- What a request that passed must have had, and whose it is.
pub record Passed (method : Method) (header : Option ℕ) (session : Session)
    (required : List Permission) (users : List User) (u : CurrentUser) : Type 0 where
  pub before : List User
  pub after : List User
  pub user : User
  pub is_stored : users ≡ before ++ user ∷ after
  pub in_session : session.user_id ≡ some user.id
  pub approved : is_approved user.status ≡ true
  pub shown : u ≡ current_user_of user
  pub same_site : (is_safe method ≡ true) ⊎ ((header ≡ session.csrf_token) × (header ≢ none))
  pub permitted : All (λ p. has_permission user.role p ≡ true) required

all-All : {A : Type 0} (p : A → Bool) (xs : List A) → all p xs ≡ true → All (λ x. p x ≡ true) xs
all-All p [] h = tt
all-All p (x ∷ xs) h = elim (Bool-cases (p x)) [
  | inl e ↦ (e, all-All p xs (rw e at h))
  | inr e ↦ elim (clash (rw e at h)) [ ]
]
  where
    clash : false ≢ true
    clash e = cc

tokens : (a b : Option ℕ) → tokens_match a b ≡ true → (a ≡ b) × (a ≢ none)
unfolding tokens_match
tokens (some a) (some b) h = (ap some (eq_of_== a b h), λ e. cc)
tokens (some a) none h = cc
tokens none b h = cc

-- A method that is safe, or the session's token.
same_site_of :
    (m : Method) (header : Option ℕ) (session : Session)
    → (is_safe m || tokens_match header session.csrf_token) ≡ true
    → (is_safe m ≡ true) ⊎ ((header ≡ session.csrf_token) × (header ≢ none))
same_site_of m header session h = elim (Bool-cases (is_safe m)) [
  | inl e ↦ inl e
  | inr e ↦ inr (tokens header session.csrf_token (rw e at h))
]

module _ (mongo : Mongo) (laws : IsDocumented mongo) (destroy : ℕ → List ℕ → List ℕ) where
  -- A request that nothing interrupts passes the guards of a route only if its session is that of a stored
  -- and approved user, as whom it goes on; its method is safe or its header carries the session's CSRF
  -- token; and the user's role has every permission that the route requires.
  pub guarded_route-Passed :
      (method : Method) (header : Option ℕ) (session : Session) (required : List Permission)
      (db : Db) (now : ℕ) (u : CurrentUser)
      → (guarded_route mongo destroy method header session required (quiet db now)).0 ≡ ok u
      → Passed method header session required db.users u
  unfolding guarded_route require_auth require_auth_of admit_user refuse destroy_session
      require_csrf_token require_permission access
  guarded_route-Passed method header session required db now u h =
      elim (Option-cases session.user_id) [
        | inl e ↦ elim (err≢ok (rw e at h)) [ ]
        | inr (i, e) ↦ elim (Option-cases (mongo.find_one User (λ x. x.id == i) db.users)) [
          | inl e' ↦ elim (err≢ok (rw (e, e') at h)) [ ]
          | inr (x, e') ↦ elim (Bool-cases (is_approved x.status)) [
            | inr a ↦ elim (err≢ok (rw (e, e', a) at h)) [ ]
            | inl a ↦ elim (Bool-cases (is_safe method || tokens_match header session.csrf_token)) [
              | inr s ↦ elim (err≢ok (rw (e, e', a, s) at h)) [ ]
              | inl s ↦ elim (Bool-cases (all (has_permission x.role) required)) [
                | inr r ↦ elim (err≢ok (rw (e, e', a, s, r) at h)) [ ]
                | inl r ↦ passed e x e' a s r (rw (e, e', a, s, r) at h)
              ]
            ]
          ]
        ]
      ]
    where
      value : Result CurrentUser → CurrentUser
      value (ok v) = v
      value (err e) = u

      passed :
          {i : ℕ}
          → session.user_id ≡ some i
          → (x : User) → mongo.find_one User (λ x. x.id == i) db.users ≡ some x
          → is_approved x.status ≡ true
          → (is_safe method || tokens_match header session.csrf_token) ≡ true
          → all (has_permission x.role) required ≡ true
          → ok (current_user_of x) ≡ ok u
          → Passed method header session required db.users u
      passed {i} e x e' a s r k =
          let (xs, (ys, (st, ma))) =
            found-stored x (laws.find_one-Finds User (λ x. x.id == i) db.users) e' in
          record {
            before = xs;
            after = ys;
            user = x;
            is_stored = st;
            in_session = e ∙ ap some (sym (eq_of_== x.id i ma));
            approved = a;
            shown = sym (ap value k);
            same_site = same_site_of method header session s;
            permitted = all-All (has_permission x.role) required r;
          }
