-- ===== src/Tests/Chatting.antt =====
-- Two sockets in the sample office: that of the customer 20 and that of agent 7.
use chat_app_backend.Prelude.{ℕ, arith, ◌≡◌, refl, true, false, none, List, [], ◌∷◌}
use chat_app_backend.Access.{Role, agent, has_permission}
use chat_app_backend.Documents.{Message, sent}
use chat_app_backend.Errors.{ok}
use chat_app_backend.Mongo.Memory.{memory, memory-IsDocumented}
use chat_app_backend.Redis.{local}
use chat_app_backend.Server.{Db, World, Turn, quiet}
use chat_app_backend.Server.Triples.{Ends}
use chat_app_backend.Realtime.Sockets.{SocketUser, SocketState}
use chat_app_backend.Chat.Pages.{to_message_response}
use chat_app_backend.Chat.Conversations.{can_access}
use chat_app_backend.Chat.Rooms.{join_conversation, leave_conversation}
use chat_app_backend.Chat.Rooms.Membership.{IsDiscreet, Admitted, join_leave-Admitted}
use chat_app_backend.Chat.Rooms.Typing.{InStep, shown_typing}
use chat_app_backend.Chat.Rooms.Typing.Steps.{
  TypingStep, sets, stops, disconnects, typing_step, typing_steps, typing_steps-InStep,
  disconnecting-silent,
}
use chat_app_backend.Chat.Messages.Retry.{answers}
use chat_app_backend.Chat.Gateway.{SendMessage, send_message}
use chat_app_backend.Chat.Gateway.Resending.{to_input, send_message-resent}
use chat_app_backend.Chat.Conversations.{get_or_create_for_customer}
use chat_app_backend.Chat.Conversations.Threads.{
  IsSingle, Single, IsOwn, get_or_create_for_customer-IsOwn,
}
use chat_app_backend.Tests.Samples.{office}

abbrev client : SocketUser
client = record { id = 20; name = 20; role = Role.user }

abbrev clerk : SocketUser
clerk = record { id = 7; name = 7; role = agent }

abbrev socket : ℕ → SocketUser → List ℕ → SocketState
socket id user rooms = record {
  id = id;
  user = user;
  conversations = rooms;
  watching = [];
  in_metrics = false;
  typing = [];
}

abbrev hello : Message
hello = record {
  id = 60;
  conversation_id = 1;
  sender_id = 20;
  client_message_id = 5;
  text = 104 ∷ 105 ∷ [];
  status = sent;
  delivered_at = none;
  read_at = none;
  created_at = 60;
}

abbrev connected : Db
connected = record office {
  messages = hello ∷ [];
  sockets = socket 100 client (1 ∷ []) ∷ socket 101 clerk [] ∷ [];
}

-- Typing twice is told once; then the socket disconnects.
abbrev gestures : List TypingStep
gestures = sets 1 true ∷ sets 1 true ∷ stops 2 ∷ []

typing_steps-InStep_example : InStep 100 1 (typing_steps 100 client gestures (quiet connected 100))
typing_steps-InStep_example =
    typing_steps-InStep 100 client 1 gestures (quiet connected 100)
      (record { connected = refl; agrees = refl; alternates = tt })

disconnecting-silent_example :
    shown_typing 100 1
      (typing_step 100 client disconnects
        (typing_steps 100 client gestures (quiet connected 100))).emitted
    ≡ false
disconnecting-silent_example =
    disconnecting-silent 100 client 1 gestures (quiet connected 100)
      (record { connected = refl; agrees = refl; alternates = tt })

-- Time passes and the first access of the join fails, or not.
abbrev pause : Turn
pause = record { others = λ db. db; elapsed = 10; fails = false }

pause-IsDiscreet : IsDiscreet 101 clerk pause
pause-IsDiscreet = record { keeps_visible = λ c db h. h; keeps_admitted = λ db h. h }

connected-Admitted : Admitted 101 clerk connected
unfolding can_access has_permission
connected-Admitted = (((refl, tt), λ e. no e), ((tt, λ e. refl), tt))
  where
    no : false ≡ true → client ≡ clerk
    no e = cc

abbrev joining : World
joining = record (quiet connected 100) { turns = pause ∷ [] }

join_leave-Admitted_example :
    Ends
      (IsDiscreet 101 clerk)
      (λ r db. Admitted 101 clerk db)
      (join_conversation memory local (λ now. true) 101 clerk 2 joining)
    × Ends
        (IsDiscreet 101 clerk)
        (λ r db. Admitted 101 clerk db)
        (leave_conversation memory local (λ now. true) 101 clerk 2 joining)
join_leave-Admitted_example = (
  ((join_leave-Admitted 101 clerk memory local (λ now. true) memory-IsDocumented 2).0).runs joining
      (pause-IsDiscreet, tt) connected-Admitted,
  ((join_leave-Admitted 101 clerk memory local (λ now. true) memory-IsDocumented 2).1).runs joining
      (pause-IsDiscreet, tt) connected-Admitted,
)

abbrev again : SendMessage
again = record { conversation_id = 1; client_id = 5; text = [] }

send_message-resent_example :
    (m : Message) × ((answers (to_input client again) m ≡ true)
      × (send_message memory local (λ now. true) none [] 99 100 client again (quiet connected 200)
          ≡ (ok (to_message_response m), quiet connected 200)))
unfolding has_permission
send_message-resent_example =
    send_message-resent memory memory-IsDocumented local (λ now. true) none [] 99 100 200 client
      again connected _ refl refl refl refl

office-Single : Single connected
office-Single k = ground arith

pause-IsSingle : IsSingle pause
pause-IsSingle = record { keeps = λ db h. h }

-- The customer 22 has no thread yet; the first look-up waits.
get_or_create_for_customer-IsOwn_example :
    Ends IsSingle
      (IsOwn memory memory-IsDocumented 22)
      (get_or_create_for_customer memory 9 22 joining)
get_or_create_for_customer-IsOwn_example =
    (get_or_create_for_customer-IsOwn memory memory-IsDocumented 9 22).runs joining
      (pause-IsSingle, tt) office-Single
