-- ===== src/Tests/Messaging.antt =====
-- The messages of the sample office.
use chat_app_backend.Prelude.{
  ℕ, ◌+◌, ◌-◌, ◌≡◌, ◌≢◌, refl, true, false, none, is_some, List, [], ◌∷◌, arith,
}
use chat_app_backend.Documents.{Message, MessageStatus, sent, delivered}
use chat_app_backend.Mongo.Memory.{memory, memory-IsDocumented}
use chat_app_backend.Redis.{local, local-IsRedis}
use chat_app_backend.Server.{Db, Turn, World, quiet, access, current_time}
use chat_app_backend.Chat.Side.{staff, sent_by, other_side}
use chat_app_backend.Chat.Conversations.{or_throw, touch_last_message}
use chat_app_backend.Chat.Calls.{reads, call}
use chat_app_backend.Chat.Messages.Forward.{Reached, IsForward}
use chat_app_backend.Chat.Messages.Forward.Calls.{call-Reached}
use chat_app_backend.Errors.{ok}
use chat_app_backend.Chat.Messages.{
  get_history, page_of, is_in, create_new, insert_message, already_saved, mark_delivered_to,
  changed_rows, fill, load_page, update_messages,
}
use chat_app_backend.Chat.Cache.{
  get_first_page, look_up, is_ready, found, store, set_page, invalidate, bump,
}
use chat_app_backend.Chat.Messages.Coherence.{IsHonest, Coherent, key_of}
use chat_app_backend.Chat.Messages.Coherence.Threads.{
  ThreadCall, adds, delivers, lists, run_calls, run_calls-Coherent, get_history-after,
}
use chat_app_backend.Chat.Pages.{to_message_response}
use chat_app_backend.Chat.Messages.{CreateMessageInput, create}
use chat_app_backend.Chat.Messages.Retry.{answers, create-retry}
use chat_app_backend.Server.Triples.{Ends}
use chat_app_backend.Chat.Messages.Races.{IsSole, Sole, IsAnswered, create-IsAnswered}
use chat_app_backend.Tests.Samples.{office, blink}

abbrev line : ℕ → ℕ → MessageStatus → Message
line id sender status = record {
  id = id;
  conversation_id = 1;
  sender_id = sender;
  client_message_id = id;
  text = 104 ∷ 105 ∷ [];
  status = status;
  delivered_at = none;
  read_at = none;
  created_at = id;
}

abbrev chatting : Db
chatting = record office { messages = line 50 20 delivered ∷ line 51 7 sent ∷ line 52 20 sent ∷ [] }

-- The second of the call's accesses fails.
abbrev failing : Turn
failing = record blink { fails = true }

blink-IsForward : IsForward blink
blink-IsForward = record { keeps = λ id r n db h. record { enough = h.enough } }

failing-IsForward : IsForward failing
failing-IsForward = record { keeps = λ id r n db h. record { enough = h.enough } }

call-Reached_example :
    Reached 50 1 1
      (call memory local
        (λ now. true)
        (reads (record { id = 1; customer_id = 20 }) staff 52)
        (record (quiet chatting 100) { turns = blink ∷ failing ∷ [] })).1.db
call-Reached_example =
    call-Reached memory memory-IsDocumented local (λ now. true) 50 1 1
      (reads (record { id = 1; customer_id = 20 }) staff 52)
      (record (quiet chatting 100) { turns = blink ∷ failing ∷ [] })
      (blink-IsForward, (failing-IsForward, tt)) (record { enough = omega arith })

-- Another request stores a message and, later, moves the version on.
abbrev writes : Turn
writes = record {
  others = λ db. record db {
    messages = line 70 20 sent ∷ db.messages;
    writers = λ id. db.writers id + 1;
  };
  elapsed = 1;
  fails = false;
}

abbrev moves_on : Turn
moves_on = record {
  others =
      λ db. record db { versions = λ id. db.versions id + 1; writers = λ id. db.writers id - 1 };
  elapsed = 1;
  fails = false;
}

never : {A : Type 0} (n : ℕ) → n + 1 ≡ 0 → A
never n e = elim (positive e) [ ]
  where
    positive : n + 1 ≢ 0
    positive e = omega (arith, e)

writes-IsHonest : (c : ℕ) → IsHonest memory local (λ now. true) c writes
writes-IsHonest c = record {
  succeeds = refl;
  keeps_version = λ db. omega arith;
  keeps_fresh = λ k v l page db f. record {
    known = f.known;
    current = λ n. never (db.writers c + k) (omega (arith, n));
  };
  keeps_cached = λ k db h. record {
    cached = λ v l page e. record {
      known = (h.cached v l page e).known;
      current = λ n. never (db.writers c + k) (omega (arith, n));
    };
  };
}

moves_on-IsHonest : (c : ℕ) → IsHonest memory local (λ now. true) c moves_on
moves_on-IsHonest c = record {
  succeeds = refl;
  keeps_version = λ db. omega arith;
  keeps_fresh = λ k v l page db f. record {
    known = omega (arith, f.known);
    current = λ n m. never 0 (omega (arith, m, f.known));
  };
  keeps_cached = λ k db h. record {
    cached = λ v l page e. record {
      known = omega (arith, (h.cached v l page e).known);
      current = λ n m. never 0 (omega (arith, m, (h.cached v l page e).known));
    };
  };
}

abbrev thread_calls : List ThreadCall
thread_calls = lists none 10 ∷ adds 60 20 9 (104 ∷ []) ∷ delivers 20 staff ∷ lists none 10 ∷ []

nothing_cached : Coherent memory local (λ now. true) 1 0 chatting
nothing_cached = record { cached = λ v l page e. cc }

run_calls-Coherent_example :
    Coherent memory local
      (λ now. true)
      1
      0
      (run_calls memory local
        (λ now. true)
        1
        thread_calls
        (record (quiet chatting 100) { turns = writes ∷ moves_on ∷ [] })).1.db
run_calls-Coherent_example =
    run_calls-Coherent memory memory-IsDocumented local local-IsRedis (λ now. true) (λ now. refl) 1
      thread_calls (record (quiet chatting 100) { turns = writes ∷ moves_on ∷ [] })
      (writes-IsHonest 1, (moves_on-IsHonest 1, tt)) nothing_cached

abbrev listening : World
listening = record (quiet chatting 100) { turns = writes ∷ moves_on ∷ [] }

-- The last of the calls has cached the page that is asked for.
cached_run :
    (λ (db : Db). is_some (db.pages (key_of 1 (db.versions 1) 10)))
      (run_calls memory local (λ now. true) 1 thread_calls listening).1.db
    ≡ true
unfolding create create_new insert_message already_saved mark_delivered_to changed_rows get_history
    get_first_page look_up is_ready found fill load_page store set_page invalidate bump access
    current_time or_throw touch_last_message update_messages sent_by other_side
cached_run = refl

get_history-after_example :
    (get_history memory local
      (λ now. true)
      1
      none
      10
      (quiet (run_calls memory local (λ now. true) 1 thread_calls listening).1.db 100)).0
    ≡ ok (
        page_of memory local
          (λ now. true)
          (is_in 1)
          10
          (run_calls memory local (λ now. true) 1 thread_calls listening).1.db)
unfolding create create_new insert_message already_saved mark_delivered_to changed_rows get_history
    get_first_page look_up is_ready found fill load_page store set_page invalidate bump access
    current_time or_throw touch_last_message update_messages sent_by other_side
get_history-after_example =
    get_history-after memory memory-IsDocumented local local-IsRedis (λ now. true) (λ now. refl) 1
      thread_calls listening 10 100 (writes-IsHonest 1, (moves_on-IsHonest 1, tt)) (λ key. refl)
      refl

abbrev resent : CreateMessageInput
resent = record {
  conversation_id = 1;
  sender_id = 20;
  client_message_id = 50;
  text = 104 ∷ 111 ∷ [];
}

create-retry_example :
    (m : Message) × ((answers resent m ≡ true)
      × (create memory local (λ now. true) 99 resent (quiet chatting 100)
          ≡ (ok (record { message = to_message_response m; created = false }), quiet chatting 100)))
create-retry_example =
    create-retry memory memory-IsDocumented local (λ now. true) 99 100 resent chatting refl

chatting-Sole : Sole chatting
chatting-Sole c k = ground arith

create-IsAnswered_example :
    Ends IsSole (IsAnswered memory memory-IsDocumented local (λ now. true) resent) (
      create memory local
        (λ now. true)
        99
        resent
        (record (quiet chatting 100) { turns = blink ∷ failing ∷ [] }))
create-IsAnswered_example =
    (create-IsAnswered memory memory-IsDocumented local (λ now. true) resent 99).runs
      (record (quiet chatting 100) { turns = blink ∷ failing ∷ [] })
      (record { keeps = λ db h. h }, (record { keeps = λ db h. h }, tt)) chatting-Sole
