-- ===== src/Realtime/Handshake.antt =====
-- src/realtime/socket-auth.middleware.ts: who may connect a socket, by the session of the handshake.
use chat_app_backend.Prelude.{
  ℕ, ◌≡◌, refl, ap, sym, ◌∙◌, Option, none, some, List, [], ◌∷◌, ◌==◌, if◌then◌else◌, Bool-cases,
  inl, inr,
}
use chat_app_backend.Documents.{User, is_approved}
use chat_app_backend.Errors.{Result, ok, err, http, unauthorized}
use chat_app_backend.Mongo.{Mongo}
use chat_app_backend.Server.{
  Db, Turn, World, M, pure, throw, ◌>>=◌, access, try_catch, next, handle, take_turn, quiet,
}
use chat_app_backend.Auth.Guards.{
  CurrentUser, Session, require_auth, require_auth_of, admit_user, refuse, destroy_session,
}
use chat_app_backend.Realtime.Sockets.{SocketUser}

-- `next()` with `socket.data.user` set, or `next(new Error('AUTHENTICATION_REQUIRED'))`.
unfoldable pub admit_socket : Option User → Option SocketUser
admit_socket none = none
admit_socket (some u) =
    if is_approved u.status then some (record { id = u.id; name = u.name; role = u.role }) else none

module _ (mongo : Mongo) where
  unfoldable pub handshake_of : Option ℕ → M (Option SocketUser)
  unfolding admit_socket
  handshake_of none = pure none
  handshake_of (some user_id) =
      try_catch
        (access (λ now db. (db, mongo.find_one User (λ u. u.id == user_id) db.users)) >>= λ user.
          pure (admit_socket user))
        (λ error. pure none)

  unfoldable pub handshake : Session → M (Option SocketUser)
  handshake session = handshake_of session.user_id

  -- Whom a route of the API would go on as, as the user of a socket.
  abbrev pub as_socket_user : Result CurrentUser → Option SocketUser
  as_socket_user (ok u) = some (record { id = u.id; name = u.name; role = u.role })
  as_socket_user (err e) = none

  module _ (destroy : ℕ → List ℕ → List ℕ) (session : Session) where
    destroy_session-ok :
        (w : World)
        → destroy_session mongo destroy session w
          ≡ (ok tt, (destroy_session mongo destroy session w).1)
    unfolding destroy_session access
    destroy_session-ok w = of w.turns
      where
        f : ℕ → Db → Db × Unit {0}
        f now db = (record db { sessions = destroy session.id db.sessions }, tt)

        of :
            (ts : List Turn)
            → handle (λ error. pure tt) (take_turn f w ts)
              ≡ (ok tt, (handle (λ error. pure tt) (take_turn f w ts)).1)
        of [] = refl
        of (t ∷ ts) = elim (Bool-cases t.fails) [ inl e ↦ rw e refl | inr e ↦ rw e refl ]

    refuse-none : (w : World) → none ≡ as_socket_user (refuse mongo destroy session w).0
    unfolding refuse
    refuse-none w =
        ap
          (λ (r : Result (Unit {0}) × World).
            as_socket_user (next (λ _. throw {A = CurrentUser} (http unauthorized)) r).0)
          (sym (destroy_session-ok w))

    admit_user-same :
        (o : Option User) (w : World)
        → admit_socket o ≡ as_socket_user (admit_user mongo destroy session o w).0
    unfolding admit_socket admit_user
    admit_user-same none w = refuse-none w
    admit_user-same (some u) w = elim (Bool-cases (is_approved u.status)) [
      | inl e ↦ rw e refl
      | inr e ↦ rw e (refuse-none w)
    ]

  -- What `requireAuth` leaves, when the handshake lets in `admitted`.
  abbrev pub ended : (ℕ → List ℕ → List ℕ) → Session → Option ℕ → Option SocketUser → Db → Db
  ended destroy session none admitted db = db
  ended destroy session (some id) (some user) db = db
  ended destroy session (some id) none db = record db { sessions = destroy session.id db.sessions }

  admit_user-ended :
      (destroy : ℕ → List ℕ → List ℕ) (session : Session) (id : ℕ) (o : Option User) (db : Db)
      (now : ℕ)
      → (admit_user mongo destroy session o (quiet db now)).1
        ≡ quiet (ended destroy session (some id) (admit_socket o) db) now
  unfolding admit_user admit_socket refuse destroy_session access
  admit_user-ended destroy session id none db now = refl
  admit_user-ended destroy session id (some u) db now = elim (Bool-cases (is_approved u.status)) [
    | inl e ↦ rw e refl
    | inr e ↦ rw e refl
  ]

  -- The handshake of a socket lets in exactly whom `requireAuth` lets in with the same session, as the
  -- same user, and refuses all others, whatever others do before each access and whether it fails. Where
  -- nothing interrupts them, the handshake changes nothing in the database, and `requireAuth` only ends the
  -- session, and that exactly where the session names a user and is refused.
  pub handshake-require_auth :
      (destroy : ℕ → List ℕ → List ℕ) (session : Session) (w : World) (db : Db) (now : ℕ)
      → ((handshake session w).0 ≡ ok (as_socket_user (require_auth mongo destroy session w).0))
        × (((handshake session (quiet db now)).1 ≡ quiet db now)
            × ((require_auth mongo destroy session (quiet db now)).1
                ≡ quiet
                    (ended destroy session session.user_id
                      (as_socket_user (require_auth mongo destroy session (quiet db now)).0)
                      db)
                    now))
  unfolding handshake handshake_of require_auth require_auth_of access
  handshake-require_auth destroy session w db now =
      (of session.user_id, (calm session.user_id, leaves session.user_id))
    where
      after :
          (r : Result (Option User) × World)
          → (handle (λ error. pure none) (next (λ user. pure (admit_socket user)) r)).0
            ≡ ok (as_socket_user (next (admit_user mongo destroy session) r).0)
      after (ok o, v) = ap ok (admit_user-same destroy session o v)
      after (err e, v) = refl

      of :
          (id : Option ℕ)
          → (handshake_of id w).0
            ≡ ok (as_socket_user (require_auth_of mongo destroy session id w).0)
      of none = refl
      of (some id) =
          after (access (λ now db. (db, mongo.find_one User (λ u. u.id == id) db.users)) w)

      calm : (id : Option ℕ) → (handshake_of id (quiet db now)).1 ≡ quiet db now
      calm none = refl
      calm (some id) = refl

      leaves :
          (id : Option ℕ)
          → (require_auth_of mongo destroy session id (quiet db now)).1
            ≡ quiet
                (ended destroy session id
                  (as_socket_user (require_auth_of mongo destroy session id (quiet db now)).0)
                  db)
                now
      leaves none = refl
      leaves (some id) =
          let o = mongo.find_one User (λ u. u.id == id) db.users in
          admit_user-ended destroy session id o db now
          ∙ ap (λ x. quiet (ended destroy session (some id) x db) now)
              (admit_user-same destroy session o (quiet db now))
