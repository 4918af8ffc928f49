-- ===== src/Tests/Accounts.antt =====
-- Sign-in and guards on the sample office.
use chat_app_backend.Prelude.{ℕ, ◌≡◌, ◌⊎◌, refl, not, none, some, List, [], ◌∷◌, ◌==◌, filterb}
use chat_app_backend.Access.{Role, agent, agent_view, chat_reply, has_permission}
use chat_app_backend.Errors.{ok, err}
use chat_app_backend.Mongo.Memory.{memory, memory-IsDocumented}
use chat_app_backend.Server.{quiet, access}
use chat_app_backend.Auth.Service.{
  Bcrypt, LoginInput, validate_credentials, checked, admitted, register, create_user, insert_user,
  explain, email_in_use,
}
use chat_app_backend.Auth.Service.Safety.{Authenticated, validate_credentials-Authenticated}
use chat_app_backend.Auth.Guards.{
  Session, post, guarded_route, require_auth, require_auth_of, admit_user, refuse, destroy_session,
  require_csrf_token, tokens_match, require_permission,
}
use chat_app_backend.Auth.Guards.Safety.{Passed, guarded_route-Passed}
use chat_app_backend.Users.Service.{to_public_user}
use chat_app_backend.Chat.Conversations.{
  or_throw, Requester, get_for_requester, conversation_not_found,
}
use chat_app_backend.Documents.{Conversation}
use chat_app_backend.Chat.Conversations.Visibility.{Shown, get_for_requester-Shown}
use chat_app_backend.Prelude.{min, ◌-◌}
use chat_app_backend.Server.{World}
use chat_app_backend.Redis.{local, local-IsRedis}
use chat_app_backend.Realtime.Handshake.{handshake, as_socket_user, ended, handshake-require_auth}
use chat_app_backend.Throttle.Window.{passed, passed-limit}
use chat_app_backend.Tests.Samples.{office, person, blink}

abbrev plain_hash : Bcrypt
plain_hash = record {
  hash = λ salt password. password;
  compare = λ password hash. password == hash;
}

abbrev login : LoginInput
login = record { email = 7; password = 0 }

validate_credentials-Authenticated_example :
    Authenticated plain_hash login office.users (to_public_user (person 7 agent))
unfolding validate_credentials checked admitted access
validate_credentials-Authenticated_example =
    validate_credentials-Authenticated memory memory-IsDocumented plain_hash login office 100
      (to_public_user (person 7 agent)) refl

-- A store that drops the session.
abbrev removed : ℕ → List ℕ → List ℕ
removed id ids = filterb (λ i. not (i == id)) ids

abbrev seven : Session
seven = record { id = 71; user_id = some 7; csrf_token = some 33 }

guarded_route-Passed_example :
    Passed post
      (some 33)
      seven
      (agent_view ∷ chat_reply ∷ [])
      office.users
      (record { id = 7; name = 7; email = 7; role = agent })
unfolding guarded_route require_auth require_auth_of admit_user require_csrf_token tokens_match
    require_permission access has_permission
guarded_route-Passed_example =
    guarded_route-Passed memory memory-IsDocumented removed post (some 33) seven
      (agent_view ∷ chat_reply ∷ []) office 100
      (record { id = 7; name = 7; email = 7; role = agent }) refl

-- The email of agent 7 is taken.
taken :
    (register memory plain_hash 9 0
      (record { name = 1; email = 7; password = 2 })
      (quiet office 100)).0
    ≡ err email_in_use
unfolding register create_user insert_user explain access or_throw
taken = refl

abbrev stranger : Requester
stranger = record { id = 21; role = Role.user }

-- Customer 21 asks for the thread of customer 20.
get_for_requester-Shown_example :
    ((c : Conversation) × (((get_for_requester memory 1 stranger (quiet office 100)).0 ≡ ok c)
        × Shown 1 stranger office.conversations c))
    ⊎ ((get_for_requester memory 1 stranger (quiet office 100)).0 ≡ err conversation_not_found)
get_for_requester-Shown_example =
    get_for_requester-Shown memory memory-IsDocumented 1 stranger office 100

-- The access waits while somebody's presence changes.
abbrev knocking : World
knocking = record (quiet office 100) { turns = blink ∷ [] }

-- The user of the session has been deleted.
abbrev orphaned : Session
orphaned = record { id = 70; user_id = some 99; csrf_token = none }

handshake-require_auth_example :
    ((handshake memory orphaned knocking).0
      ≡ ok (as_socket_user memory (require_auth memory removed orphaned knocking).0))
    × (((handshake memory orphaned (quiet office 100)).1 ≡ quiet office 100)
        × ((require_auth memory removed orphaned (quiet office 100)).1
            ≡ quiet
                (ended memory removed orphaned
                  (some 99)
                  (as_socket_user memory
                    (require_auth memory removed orphaned (quiet office 100)).0)
                  office)
                100))
handshake-require_auth_example = handshake-require_auth memory removed orphaned knocking office 100

-- Session 70 is gone from the store.
orphaned_run : (require_auth memory removed orphaned (quiet office 100)).1.db.sessions ≡ 71 ∷ []
unfolding require_auth require_auth_of admit_user refuse destroy_session access
orphaned_run = refl

-- Of seven attempts to sign in from one address five are let through.
passed-limit_example : passed local local-IsRedis 5 60 1000 3 7 office ≡ min 7 (5 - office.hits 3)
passed-limit_example = passed-limit local local-IsRedis 5 60 1000 3 7 office
