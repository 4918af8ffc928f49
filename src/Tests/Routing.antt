-- ===== src/Tests/Routing.antt =====
-- The routing on the sample office.
use chat_app_backend.Prelude.{◌≡◌, refl, none, some, List, [], ◌∷◌, map}
use chat_app_backend.Access.{Role}
use chat_app_backend.Documents.{AgentProfile}
use chat_app_backend.Mongo.Memory.{memory, memory-IsDocumented}
use chat_app_backend.Server.{Db, World, quiet, access, emit, start}
use chat_app_backend.Agents.Requests.{Request, message, claims, transfers, drains, serve_all}
use chat_app_backend.Chat.Assigning
use chat_app_backend.Agents.Service.{release_slot}
use chat_app_backend.Agents.Assignment.{announce}
use chat_app_backend.Agents.Moves.{close_read}
use chat_app_backend.Agents.Books.{Books, IsCalm}
use chat_app_backend.Agents.Books.Requests.{serve_all-Books}
use chat_app_backend.Agents.Books.Shut.{Shut}
use chat_app_backend.Agents.Books.Closing.{close_read-Books, close_read-leaks}
use chat_app_backend.Tests.Samples.{office, agent_seven, blink, thread, desk}

blink-IsCalm : IsCalm blink
blink-IsCalm = record {
  succeeds = refl;
  keeps_books = λ a k db b. record { balance = b.balance; free = b.free };
  keeps_profiles = λ a db p. record { exists = p.exists };
}

abbrev busy_day : List Request
busy_day = message 2 Role.user ∷ transfers 1 (some 8) ∷ claims 1 agent_seven ∷ drains ∷ []

abbrev interrupted : World
interrupted = record (quiet office 100) { turns = blink ∷ blink ∷ [] }

serve_all-Books_example : Books 7 0 (serve_all memory busy_day interrupted).1.db
serve_all-Books_example =
    serve_all-Books memory memory-IsDocumented 7 busy_day interrupted
      (blink-IsCalm, (blink-IsCalm, tt)) (record { balance = refl; free = refl })

-- A transfer has moved conversation 1 to agent 8 since agent 7 read it as its own.
abbrev transferred : Db
transferred = record office {
  conversations = thread 1 20 (some 8) ∷ thread 2 21 none ∷ [];
  profiles = desk 7 0 ∷ desk 8 1 ∷ [];
}

close_read-Books_example :
    Books 7 0 (close_read memory 1 agent_seven (thread 1 20 (some 7)) (quiet office 100)).1.db
close_read-Books_example =
    close_read-Books memory memory-IsDocumented 7 1 agent_seven (thread 1 20 (some 7))
      (quiet office 100) tt (record { held = refl }) (record { balance = refl; free = refl })

close_read-leaks_example :
    Books 8 1 (close_read memory 1 agent_seven (thread 1 20 (some 7)) (quiet transferred 100)).1.db
    × Shut 1 (close_read memory 1 agent_seven (thread 1 20 (some 7)) (quiet transferred 100)).1.db
close_read-leaks_example =
    close_read-leaks memory memory-IsDocumented 8 1 agent_seven (thread 1 20 (some 7)) transferred
      100 refl refl (record { held = refl }) refl (record { balance = refl; free = refl })

-- The new holder's counter stays at 1 with no conversation left.
leaked :
    map
      (λ (p : AgentProfile). p.active_chats)
      (close_read memory 1 agent_seven (thread 1 20 (some 7)) (quiet transferred 100)).1.db.profiles
    ≡ 0 ∷ 1 ∷ []
unfolding close_read access emit start Assigning.close release_slot announce
leaked = refl
