-- ===== src/Chat/Rooms/Typing.antt =====
-- The typing indicator of a socket: who sees it is told of each change once.
pub mod Steps
use chat_app_backend.Prelude.{
  ℕ, ◌≡◌, ◌⊎◌, refl, ap, sym, ◌∙◌, Bool, true, false, not, ◌&&◌, ◌||◌, Option, none, some, List, [],
  ◌∷◌, ◌==◌, any, filterb, map, if◌then◌else◌, inl, inr, Bool-cases, eq_of_==, ==_refl, ==_comm,
  any-filterb, subst, or_false, or_true, and_true, arith,
}
use chat_app_backend.Realtime.Sockets.{SocketUser, SocketState}
use chat_app_backend.Realtime.Rooms.{Room}
use chat_app_backend.Realtime.Events.{Event, Emission, Typing, typing_update}
use chat_app_backend.Server.{Db, World, emit_from, sync, next}
use chat_app_backend.Errors.{Result, ok}
use chat_app_backend.Chat.Rooms.{
  has, with_one, without, change_at, change_socket, set_of, joined, typing_in, clear_timer,
  restart_timer, emit_typing, stop_typing, start_typing, set_typing, stop_each, disconnecting,
}

abbrev pub reaches : ℕ → Room → Bool
reaches c (Room.conversation d) = d == c
reaches c _ = false

-- What an emission tells the others in the room of the conversation `c` of the typing of the socket `id`
-- there: it must be sent to that room, without the socket itself, and be about that conversation.
abbrev pub told_by : ℕ → ℕ → List Room → Option ℕ → Event → Option Bool
told_by id c targets (some sender) (typing_update t) =
    if any (reaches c) targets && (sender == id && t.conversation_id == c)
    then some t.is_typing
    else none
told_by id c targets _ _ = none

abbrev pub told_or : Option Bool → Bool → Bool
told_or none seen = seen
told_or (some b) seen = b

-- Whether the others see that the socket is typing, by what has been sent to them, latest first.
abbrev pub shown_typing : ℕ → ℕ → List Emission → Bool
shown_typing id c [] = false
shown_typing id c (e ∷ es) =
    told_or (told_by id c e.targets e.except e.event) (shown_typing id c es)

abbrev pub IsNews : Option Bool → Bool → Type 0
IsNews none seen = Unit
IsNews (some b) seen = seen ≡ not b

-- Nobody is told what he sees already.
abbrev pub IsAlternating : ℕ → ℕ → List Emission → Type 0
IsAlternating id c [] = Unit
IsAlternating id c (e ∷ es) =
    IsNews (told_by id c e.targets e.except e.event) (shown_typing id c es) × IsAlternating id c es

abbrev pub is_connected : ℕ → Db → Bool
is_connected id db = any (λ s. s.id == id) db.sockets

pub record InStep (id c : ℕ) (w : World) : Type 0 where
  pub connected : is_connected id w.db ≡ true
  pub agrees : shown_typing id c w.emitted ≡ has c (typing_in id w.db)
  pub alternates : IsAlternating id c w.emitted

and_false : (a : Bool) → (a && false) ≡ false
and_false true = refl
and_false false = refl

or_comm : (a b : Bool) → (a || b) ≡ (b || a)
or_comm true true = refl
or_comm true false = refl
or_comm false true = refl
or_comm false false = refl

has-without : (c d : ℕ) (set : List ℕ) → has c (without d set) ≡ (has c set && not (c == d))
has-without c d set = any-filterb c d set

has-with_one : (c d : ℕ) (set : List ℕ) → has c (with_one d set) ≡ (has c set || (d == c))
has-with_one c d set = elim (Bool-cases (has d set)) [
  | inl e ↦ elim (Bool-cases (d == c)) [
    | inl f ↦ rw (e, f) (subst (λ x. has x set ≡ (has x set || true)) (eq_of_== d c f) (rw e refl))
    | inr f ↦ rw (e, f) (sym (or_false (has c set)))
  ]
  | inr e ↦ rw e (or_comm (d == c) (has c set))
]

-- What a change of the socket does to the set that is read.
set_of-change :
    (id : ℕ) (f : SocketState → SocketState) (h : List ℕ → List ℕ)
    → ((s : SocketState) → (f s).id ≡ s.id)
    → ((s : SocketState) → (f s).typing ≡ h s.typing)
    → (ss : List SocketState) → any (λ s. s.id == id) ss ≡ true
    → (set_of (λ s. s.typing) id (map (change_at id f) ss) ≡ h (set_of (λ s. s.typing) id ss))
      × (any (λ s. s.id == id) (map (change_at id f) ss) ≡ true)
set_of-change id f h same get [] e = cc
set_of-change id f h same get (s ∷ ss) e = elim (Bool-cases (s.id == id)) [
  | inl t ↦ rw t (rw (same s, t) (get s, refl))
  | inr t ↦ rw t (rw t (set_of-change id f h same get ss (rw t at e)))
]

news : {o p : Option Bool} (seen : Bool) → o ≡ p → IsNews p seen → IsNews o seen
news seen e h = subst (λ o. IsNews o seen) (sym e) h

module _ (id c : ℕ) (user : SocketUser) (d : ℕ) where
  -- The update that `stop_typing` or `start_typing` sends, if it is about `c`.
  told_self :
      (b : Bool)
      → (d == c) ≡ true
      → told_by id c (Room.conversation d ∷ []) (some id) (
          typing_update
            (record { conversation_id = d; user_id = user.id; name = user.name; is_typing = b }))
        ≡ some b
  told_self b e = rw (e, ==_refl id) refl

  told-other :
      (b : Bool)
      → (d == c) ≡ false
      → told_by id c (Room.conversation d ∷ []) (some id) (
          typing_update
            (record { conversation_id = d; user_id = user.id; name = user.name; is_typing = b }))
        ≡ none
  told-other b e = rw e refl

  same-has : (set : List ℕ) → (d == c) ≡ true → has c set ≡ has d set
  same-has set e = ap (λ x. has x set) (sym (eq_of_== d c e))

  gone : (set : List ℕ) → (d == c) ≡ true → has c (without d set) ≡ false
  gone set e = has-without c d set ∙ rw (==_comm c d, e) (and_false (has c set))

  left : (set : List ℕ) → (d == c) ≡ false → has c (without d set) ≡ has c set
  left set e = has-without c d set ∙ rw (==_comm c d, e) (and_true (has c set))

  come : (set : List ℕ) → (d == c) ≡ true → has c (with_one d set) ≡ true
  come set e = has-with_one c d set ∙ rw e (or_true (has c set))

  kept : (set : List ℕ) → (d == c) ≡ false → has c (with_one d set) ≡ has c set
  kept set e = has-with_one c d set ∙ rw e (or_false (has c set))

  pub stop_typing-InStep : (w : World) → InStep id c w → InStep id c (stop_typing id user d w).1
  unfolding stop_typing clear_timer emit_typing sync emit_from
  stop_typing-InStep w h =
      let set = typing_in id w.db in
      let (now, still) =
        set_of-change id (λ s. record s { typing = without d s.typing }) (without d) (λ s. refl)
          (λ s. refl) w.db.sockets h.connected in
      elim (Bool-cases (has d set)) [
        | inl e ↦ rw e (elim (Bool-cases (d == c)) [
          | inl f ↦ record {
            connected = still;
            agrees =
                ap (λ o. told_or o (shown_typing id c w.emitted)) (told_self false f)
                ∙ sym (ap (has c) now ∙ gone set f);
            alternates = (
              news (shown_typing id c w.emitted) (told_self false f)
                  (h.agrees ∙ same-has set f ∙ e),
              h.alternates,
            );
          }
          | inr f ↦ record {
            connected = still;
            agrees =
                ap (λ o. told_or o (shown_typing id c w.emitted)) (told-other false f)
                ∙ (h.agrees ∙ sym (ap (has c) now ∙ left set f));
            alternates = (news (shown_typing id c w.emitted) (told-other false f) tt, h.alternates);
          }
        ])
        | inr e ↦ rw e (elim (Bool-cases (d == c)) [
          | inl f ↦ record {
            connected = still;
            agrees = h.agrees ∙ same-has set f ∙ e ∙ sym (ap (has c) now ∙ gone set f);
            alternates = h.alternates;
          }
          | inr f ↦ record {
            connected = still;
            agrees = h.agrees ∙ sym (ap (has c) now ∙ left set f);
            alternates = h.alternates;
          }
        ])
      ]

  start_typing-InStep : (w : World) → InStep id c w → InStep id c (start_typing id user d w).1
  unfolding start_typing restart_timer emit_typing sync emit_from
  start_typing-InStep w h =
      let set = typing_in id w.db in
      let (now, still) =
        set_of-change id (λ s. record s { typing = with_one d s.typing }) (with_one d) (λ s. refl)
          (λ s. refl) w.db.sockets h.connected in
      elim (Bool-cases (has d set)) [
        | inl e ↦ rw e (elim (Bool-cases (d == c)) [
          | inl f ↦ record {
            connected = still;
            agrees = h.agrees ∙ same-has set f ∙ e ∙ sym (ap (has c) now ∙ come set f);
            alternates = h.alternates;
          }
          | inr f ↦ record {
            connected = still;
            agrees = h.agrees ∙ sym (ap (has c) now ∙ kept set f);
            alternates = h.alternates;
          }
        ])
        | inr e ↦ rw e (elim (Bool-cases (d == c)) [
          | inl f ↦ record {
            connected = still;
            agrees =
                ap (λ o. told_or o (shown_typing id c w.emitted)) (told_self true f)
                ∙ sym (ap (has c) now ∙ come set f);
            alternates = (
              news (shown_typing id c w.emitted) (told_self true f) (h.agrees ∙ same-has set f ∙ e),
              h.alternates,
            );
          }
          | inr f ↦ record {
            connected = still;
            agrees =
                ap (λ o. told_or o (shown_typing id c w.emitted)) (told-other true f)
                ∙ (h.agrees ∙ sym (ap (has c) now ∙ kept set f));
            alternates = (news (shown_typing id c w.emitted) (told-other true f) tt, h.alternates);
          }
        ])
      ]

  pub set_typing-InStep :
      (b : Bool) (w : World) → InStep id c w → InStep id c (set_typing id user d b w).1
  unfolding set_typing sync
  set_typing-InStep b w h = elim (Bool-cases (has d (joined id w.db))) [
    | inl e ↦ rw e (typed b)
    | inr e ↦ rw e h
  ]
    where
      typed :
          (b : Bool)
          → InStep id c ((if b then start_typing id user d else stop_typing id user d) w).1
      typed true = start_typing-InStep w h
      typed false = stop_typing-InStep w h

  -- The timers that are left.
  pub stop_typing-typing :
      (w : World)
      → is_connected id w.db ≡ true
      → has c (typing_in id (stop_typing id user d w).1.db)
        ≡ (has c (typing_in id w.db) && not (c == d))
  unfolding stop_typing clear_timer emit_typing sync emit_from
  stop_typing-typing w h =
      let set = typing_in id w.db in
      let (now, still) =
        set_of-change id (λ s. record s { typing = without d s.typing }) (without d) (λ s. refl)
          (λ s. refl) w.db.sockets h in
      elim (Bool-cases (has d set)) [
        | inl e ↦ rw e (ap (has c) now ∙ has-without c d set)
        | inr e ↦ rw e (ap (has c) now ∙ has-without c d set)
      ]
