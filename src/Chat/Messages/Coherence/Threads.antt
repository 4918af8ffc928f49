-- ===== src/Chat/Messages/Coherence/Threads.antt =====
-- The calls on one conversation, among other requests, keep the cache in agreement with its messages.
use chat_app_backend.Prelude.{
  ℕ, ◌≡◌, ◌≢◌, refl, sym, ◌∙◌, Bool, true, Option, none, some, List, [], ◌∷◌, All,
}
use chat_app_backend.Errors.{ok}
use chat_app_backend.Chat.Pages.{PageKey, HistoryPage}
use chat_app_backend.Mongo.{Mongo, IsDocumented}
use chat_app_backend.Redis.{Redis, IsRedis}
use chat_app_backend.Server.{World, M, pure, quiet, ◌>>◌, try_catch}
use chat_app_backend.Server.Triples.{Stays, Stays-pure, Stays-bind, Stays-try}
use chat_app_backend.Chat.Side.{ChatSide}
use chat_app_backend.Chat.Messages.{
  CreateMessageInput, CursorText, create, mark_delivered_to, get_history, page_of, is_in,
}
use chat_app_backend.Chat.Messages.Coherence.{Coherent, IsHonest, key_of}
use chat_app_backend.Chat.Messages.Coherence.Reading.{get_history-Good, get_history-current}
use chat_app_backend.Chat.Messages.Coherence.Writing.{create-Fine, mark_delivered_to-Fine}

-- A call on the conversation `c`.
pub data ThreadCall : Type 0 where
  adds : (id sender_id client_message_id : ℕ) (text : List ℕ) → ThreadCall
  delivers : (customer_id : ℕ) (side : ChatSide) → ThreadCall
  lists : Option CursorText → ℕ → ThreadCall

abbrev pub run_call : Mongo → Redis → (ℕ → Bool) → ℕ → ThreadCall → M (Unit {0})
run_call mongo redis ready c (adds id sender_id client_message_id text) =
    let input : CreateMessageInput = record {
      conversation_id = c;
      sender_id = sender_id;
      client_message_id = client_message_id;
      text = text;
    } in
    create mongo redis ready id input >> pure tt
run_call mongo redis ready c (delivers customer_id side) =
    mark_delivered_to mongo redis ready (record { id = c; customer_id = customer_id }) side
    >> pure tt
run_call mongo redis ready c (lists cursor limit) =
    get_history mongo redis ready c cursor limit >> pure tt

abbrev pub run_calls : Mongo → Redis → (ℕ → Bool) → ℕ → List ThreadCall → M (Unit {0})
run_calls mongo redis ready c [] = pure tt
run_calls mongo redis ready c (call ∷ calls) =
    try_catch (run_call mongo redis ready c call) (λ error. pure tt)
    >> run_calls mongo redis ready c calls

module _ (mongo : Mongo) (laws : IsDocumented mongo) (redis : Redis) (redis_laws : IsRedis redis)
    (ready : ℕ → Bool) (up : (now : ℕ) → ready now ≡ true) (c : ℕ) where
  run_call-Stays :
      (call : ThreadCall)
      → Stays
          (IsHonest mongo redis ready c)
          (Coherent mongo redis ready c 0)
          (run_call mongo redis ready c call)
  run_call-Stays (adds id sender_id client_message_id text) =
      Stays-bind (create-Fine mongo laws redis redis_laws ready up c id _ refl) (λ _. Stays-pure tt)
  run_call-Stays (delivers customer_id side) =
      Stays-bind (mark_delivered_to-Fine mongo laws redis redis_laws ready up c customer_id side)
        (λ _. Stays-pure tt)
  run_call-Stays (lists cursor limit) =
      Stays-bind (get_history-Good mongo redis redis_laws ready c cursor limit) (λ _. Stays-pure tt)

  run_calls-Stays :
      (calls : List ThreadCall)
      → Stays
          (IsHonest mongo redis ready c)
          (Coherent mongo redis ready c 0)
          (run_calls mongo redis ready c calls)
  run_calls-Stays [] = Stays-pure tt
  run_calls-Stays (call ∷ calls) =
      Stays-bind (Stays-try (run_call-Stays call) (λ e. Stays-pure tt)) (λ _. run_calls-Stays calls)

  -- With Redis connected, take any calls on one conversation, run one after another, that add messages,
  -- mark them delivered or list the history, each of which may fail. Before each access other
  -- requests may write, store pages and move versions on, as long as they are honest: a writer
  -- counts as pending until it has moved the version on, no page is stored that is not fresh, and no
  -- access fails. If no page cached for the conversation disagrees with its messages under the current
  -- version when no writer is pending, then so it is afterwards.
  pub run_calls-Coherent :
      (calls : List ThreadCall) (w : World)
      → All (IsHonest mongo redis ready c) w.turns
      → Coherent mongo redis ready c 0 w.db
      → Coherent mongo redis ready c 0 (run_calls mongo redis ready c calls w).1.db
  run_calls-Coherent calls w turns h = ((run_calls-Stays calls).runs w turns h).holds

  -- With Redis connected, take a database whose history cache is empty, any such calls on one conversation and
  -- other requests that are honest in that way, and let no writer be pending afterwards. A request for the newest
  -- page that nothing interrupts then returns what the messages give, whatever pages the calls have cached.
  pub get_history-after :
      (calls : List ThreadCall) (w : World) (l now : ℕ)
      → All (IsHonest mongo redis ready c) w.turns
      → ((key : PageKey) → w.db.pages key ≡ none)
      → (run_calls mongo redis ready c calls w).1.db.writers c ≡ 0
      → (get_history mongo redis ready c none l
          (quiet (run_calls mongo redis ready c calls w).1.db now)).0
        ≡ ok (page_of mongo redis ready (is_in c) l (run_calls mongo redis ready c calls w).1.db)
  get_history-after calls w l now turns empty idle =
      get_history-current mongo redis ready c l now (run_calls mongo redis ready c calls w).1.db
        idle
        (run_calls-Coherent calls w turns
          (record { cached = λ v l page e. elim (nothing (sym (empty (key_of c v l)) ∙ e)) [ ] }))
    where
      nothing : {page : HistoryPage} → none ≢ some page
      nothing e = cc
