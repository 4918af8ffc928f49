-- ===== src/Chat/Rooms/Membership.antt =====
-- A socket is only in the rooms of threads that its user may see.
use chat_app_backend.Prelude.{
  ℕ, ◌≡◌, refl, sym, subst, Bool, true, not, ◌&&◌, or_true, Option, none, some, List, [], ◌∷◌, ◌++◌,
  ◌==◌, any, filterb, map, inl, inr, Bool-cases, ==_refl, All,
}
use chat_app_backend.Documents.{Conversation}
use chat_app_backend.Errors.{Result, ok, err}
use chat_app_backend.Mongo.{Mongo, IsDocumented}
use chat_app_backend.Mongo.Facts.{found-stored}
use chat_app_backend.Redis.{Redis}
use chat_app_backend.Realtime.Sockets.{SocketUser, SocketState}
use chat_app_backend.Server.{Db, Turn, M, access}
use chat_app_backend.Server.Triples.{
  Stays, Stays-pure, Stays-throw, Stays-bind, Stays-if, Stays-try, Triple, Triple-attempt,
  Triple-pure, Triple-throw, Triple-bind, Triple-sync, Triple-emit, Triple-emit_from,
  Triple-current_time,
}
use chat_app_backend.Chat.Side.{ConversationRef, ChatSide, side_of}
use chat_app_backend.Chat.Pages.{MessageResponse}
use chat_app_backend.Chat.Cache.{is_ready, bump, invalidate}
use chat_app_backend.Chat.Messages.{update_messages, changed_rows, mark_delivered_to}
use chat_app_backend.Chat.Conversations.{
  can_access, admit_requester, get_for_requester, find_by_id, to_conversation_ref,
}
use chat_app_backend.Chat.Rooms.{
  requester_of, has, with_one, change_at, change_socket, join_room, leave_room, emit_delivered,
  enter_conversation, admit, join_conversation, leave_conversation, stop_typing, clear_timer,
  emit_typing,
}

abbrev is_seen_by : SocketUser → ℕ → Conversation → Bool
is_seen_by user c k = k.id == c && can_access k (requester_of user)

abbrev pub IsVisible : SocketUser → List Conversation → ℕ → Type 0
IsVisible user conversations c = any (is_seen_by user c) conversations ≡ true

-- The socket is in rooms of threads that its user may see; the socket `id` is that of `user`.
abbrev pub IsProper : ℕ → SocketUser → List Conversation → SocketState → Type 0
IsProper id user conversations s =
    All (IsVisible s.user conversations) s.conversations × ((s.id == id) ≡ true → s.user ≡ user)

abbrev pub Admitted : ℕ → SocketUser → Db → Type 0
Admitted id user db = All (IsProper id user db.conversations) db.sockets

-- Other requests hide no thread from anybody and put sockets into proper rooms only. Their accesses and ours
-- may fail.
pub record IsDiscreet (id : ℕ) (user : SocketUser) (t : Turn) : Type 0 where
  pub keeps_visible :
      (c : ℕ) (db : Db)
      → IsVisible user db.conversations c
      → IsVisible user (t.others db).conversations c
  pub keeps_admitted : (db : Db) → Admitted id user db → Admitted id user (t.others db)

any-append :
    {A : Type 0} (p : A → Bool) (xs ys : List A) (x : A) → p x ≡ true → any p (xs ++ x ∷ ys) ≡ true
any-append p [] ys x h = rw h refl
any-append p (z ∷ xs) ys x h = rw (any-append p xs ys x h) (or_true (p z))

All-map :
    {A : Type 0} (P : A → Type 0) (f : A → A)
    → ((a : A) → P a → P (f a))
    → (xs : List A) → All P xs
    → All P (map f xs)
All-map P f h [] a = tt
All-map P f h (x ∷ xs) (a, rest) = (h x a, All-map P f h xs rest)

All-filterb :
    {A : Type 0} (P : A → Type 0) (p : A → Bool) (xs : List A) → All P xs → All P (filterb p xs)
All-filterb P p [] a = tt
All-filterb P p (x ∷ xs) (a, rest) = elim (Bool-cases (p x)) [
  | inl e ↦ rw e (a, All-filterb P p xs rest)
  | inr e ↦ rw e (All-filterb P p xs rest)
]

All-with_one : (P : ℕ → Type 0) (c : ℕ) (set : List ℕ) → P c → All P set → All P (with_one c set)
All-with_one P c set h a = elim (Bool-cases (has c set)) [ inl e ↦ rw e a | inr e ↦ rw e (h, a) ]

module _ (id : ℕ) (user : SocketUser) where
  abbrev Kept : {A : Type 0} → M A → Type 0
  Kept m = Stays (IsDiscreet id user) (Admitted id user) m

  -- A change of the socket `id`.
  change-Admitted :
      (f : SocketState → SocketState) (db : Db)
      → ((s : SocketState)
          → s.user ≡ user
          → IsProper id user db.conversations s
          → IsProper id user db.conversations (f s))
      → Admitted id user db
      → Admitted id user (change_socket id f db)
  change-Admitted f db keep h =
      All-map (IsProper id user db.conversations) (change_at id f) one db.sockets h
    where
      one :
          (s : SocketState)
          → IsProper id user db.conversations s
          → IsProper id user db.conversations (change_at id f s)
      one s p = elim (Bool-cases (s.id == id)) [ inl e ↦ rw e (keep s (p.1 e) p) | inr e ↦ rw e p ]

  join_room-Admitted :
      (c : ℕ)
      → Triple
          (IsDiscreet id user)
          (λ db. Admitted id user db × IsVisible user db.conversations c)
          (join_room id c)
          (λ r db. Admitted id user db)
  unfolding join_room
  join_room-Admitted c =
      Triple-attempt _ (λ t db d p. (d.keeps_admitted db p.0, d.keeps_visible c db p.1))
        (λ now db p.
          change-Admitted _ db
            (λ s e q. (
              All-with_one (IsVisible s.user db.conversations) c s.conversations
                  (subst (λ u. IsVisible u db.conversations c) (sym e) p.1) q.0,
              q.1,
            ))
            p.0)
        (λ db p. p.0)

  leave_room-Admitted : (c : ℕ) → Kept (leave_room id c)
  unfolding leave_room
  leave_room-Admitted c =
      Triple-attempt _ (λ t db d. d.keeps_admitted db)
        (λ now db p.
          change-Admitted _ db
            (λ s e q. (
              All-filterb (IsVisible s.user db.conversations) (λ x. not (x == c)) s.conversations
                  q.0,
              q.1,
            ))
            p)
        (λ db p. p)

  stop_typing-Admitted : (c : ℕ) → Kept (stop_typing id user c)
  unfolding stop_typing clear_timer emit_typing
  stop_typing-Admitted c =
      Stays-bind (Triple-sync _ (λ db p. change-Admitted _ db (λ s e q. q) p))
        (λ b. Stays-if b (Triple-emit_from id _ _) (Stays-pure tt))

  -- An access that leaves threads and sockets alone.
  access-Admitted :
      {A : Type 0} (f : ℕ → Db → Db × A)
      → ((now : ℕ) (db : Db) → Admitted id user db → Admitted id user (f now db).0)
      → Kept (access f)
  access-Admitted f h = Triple-attempt f (λ t db d. d.keeps_admitted db) h (λ db p. p)

  emit_delivered-Admitted : (c : ℕ) (ms : List MessageResponse) → Kept (emit_delivered c ms)
  unfolding emit_delivered
  emit_delivered-Admitted c [] = Stays-pure tt
  emit_delivered-Admitted c (m ∷ ms) =
      Stays-bind Triple-current_time
        (λ now. Stays-bind (Triple-emit _ _) (λ _. emit_delivered-Admitted c ms))

  module _ (mongo : Mongo) (redis : Redis) (ready : ℕ → Bool) where
    invalidate-Admitted : (c : ℕ) → Kept (invalidate redis ready c)
    unfolding invalidate is_ready bump
    invalidate-Admitted c = Stays-bind (Stays-bind Triple-current_time (λ now. Stays-pure _)) (λ up.
        Stays-if up (Stays-try (access-Admitted _ (λ now db p. p)) (λ e. Stays-pure tt))
          (Stays-pure tt))

    mark_delivered_to-Admitted :
        (c : ConversationRef) (side : ChatSide) → Kept (mark_delivered_to mongo redis ready c side)
    unfolding mark_delivered_to update_messages changed_rows
    mark_delivered_to-Admitted c side = Stays-bind Triple-current_time (λ at.
        Stays-bind (access-Admitted _ (λ now db p. p)) (λ n. Stays-if (n == 0) (Stays-pure []) (
          Stays-bind (invalidate-Admitted c.id)
            (λ _. Stays-bind (access-Admitted _ (λ now db p. p)) (λ rows. Stays-pure _)))))

    enter_conversation-Admitted :
        (c : ConversationRef)
        → Triple
            (IsDiscreet id user)
            (λ db. Admitted id user db × IsVisible user db.conversations c.id)
            (enter_conversation mongo redis ready id user c)
            (λ r db. Admitted id user db)
    unfolding enter_conversation
    enter_conversation-Admitted c =
        Triple-bind (join_room-Admitted c.id)
          (λ _.
            Stays-bind (mark_delivered_to-Admitted c (side_of c user.id))
              (λ ms. emit_delivered-Admitted c.id ms))
          (λ e db p. p)

    module _ (manual : IsDocumented mongo) where
      abbrev IsFound : ℕ → Result (Option Conversation) → Db → Type 0
      IsFound conversation_id (ok (some c)) db =
          Admitted id user db
          × ((can_access c (requester_of user)) ≡ true → IsVisible user db.conversations c.id)
      IsFound conversation_id (ok none) db = Admitted id user db
      IsFound conversation_id (err e) db = Admitted id user db

      abbrev IsAllowed : Result Conversation → Db → Type 0
      IsAllowed (ok c) db = Admitted id user db × IsVisible user db.conversations c.id
      IsAllowed (err e) db = Admitted id user db

      find-IsFound :
          (conversation_id : ℕ) (now : ℕ) (db : Db) (o : Option Conversation)
          → mongo.find_one Conversation (λ c. c.id == conversation_id) db.conversations ≡ o
          → Admitted id user db
          → IsFound conversation_id (ok o) db
      find-IsFound conversation_id now db none e p = p
      find-IsFound conversation_id now db (some c) e p = (
        p,
        λ h.
            let (xs, (ys, (s, m))) =
              found-stored c
                (manual.find_one-Finds Conversation (λ c. c.id == conversation_id) db.conversations)
                e in
            rw s (any-append (is_seen_by user c.id) xs ys c (rw (==_refl c.id, h) refl)),
      )

      get_for_requester-IsAllowed :
          (conversation_id : ℕ)
          → Triple
              (IsDiscreet id user)
              (Admitted id user)
              (get_for_requester mongo conversation_id (requester_of user))
              IsAllowed
      unfolding get_for_requester admit_requester find_by_id
      get_for_requester-IsAllowed conversation_id =
          Triple-bind {R = IsFound conversation_id}
            (Triple-attempt _ (λ t db d. d.keeps_admitted db)
              (λ now db p. find-IsFound conversation_id now db _ refl p) (λ db p. p))
            after (λ e db p. p)
        where
          after :
              (o : Option Conversation)
              → Triple
                  (IsDiscreet id user)
                  (IsFound conversation_id (ok o))
                  (admit_requester mongo (requester_of user) o)
                  IsAllowed
          after none = Triple-throw _ (λ db p. p)
          after (some c) = elim (Bool-cases (can_access c (requester_of user))) [
            | inl e ↦ rw e (Triple-pure c (λ db p. (p.0, p.1 e)))
            | inr e ↦ rw e (Triple-throw _ (λ db p. p.0))
          ]

      admit-Admitted :
          (conversation_id : ℕ) → Kept (admit mongo redis ready id user conversation_id)
      unfolding admit to_conversation_ref
      admit-Admitted conversation_id =
          Triple-bind {R = IsAllowed} (get_for_requester-IsAllowed conversation_id)
            (λ c.
              Triple-bind {R = λ r db. Admitted id user db}
                (enter_conversation-Admitted (to_conversation_ref c))
                (λ _. Stays-pure conversation_id) (λ e db p. p))
            (λ e db p. p)

      join-Admitted :
          (conversation_id : ℕ) → Kept (join_conversation mongo redis ready id user conversation_id)
      unfolding join_conversation
      join-Admitted conversation_id =
          Stays-bind (Triple-sync {Q = λ r db. Admitted id user db} _ (λ db p. p))
            (λ rooms. Stays-if _ (Stays-throw _) (admit-Admitted conversation_id))

      -- Take sockets that are only in the rooms of threads that their users may see, of which `id` is
      -- that of `user`, and other requests that put no socket elsewhere and hide no thread from that user. When the handler of
      -- 'conversation:join' or of 'conversation:leave' of the socket `id` has run for any conversation, with any accesses failing and
      -- whether it throws or not, every socket is still only in such rooms.
      pub join_leave-Admitted :
          (conversation_id : ℕ)
          → Stays
              (IsDiscreet id user)
              (Admitted id user)
              (join_conversation mongo redis ready id user conversation_id)
            × Stays
                (IsDiscreet id user)
                (Admitted id user)
                (leave_conversation mongo redis ready id user conversation_id)
      unfolding leave_conversation
      join_leave-Admitted conversation_id = (
        join-Admitted conversation_id,
        Stays-bind (stop_typing-Admitted conversation_id)
            (λ _. leave_room-Admitted conversation_id),
      )
