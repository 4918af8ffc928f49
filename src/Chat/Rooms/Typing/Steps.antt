-- ===== src/Chat/Rooms/Typing/Steps.antt =====
-- The typing indicator over the life of a connection.
use chat_app_backend.Prelude.{
  ℕ, ◌≡◌, ◌⊎◌, refl, ap, sym, ◌∙◌, Bool, true, false, not, ◌&&◌, ◌||◌, List, [], ◌∷◌, ◌==◌, inl,
  inr, Bool-cases, ==_comm, subst,
}
use chat_app_backend.Realtime.Sockets.{SocketUser}
use chat_app_backend.Server.{World, emit_from, sync, next}
use chat_app_backend.Errors.{Result, ok}
use chat_app_backend.Chat.Rooms.{
  has, typing_in, clear_timer, emit_typing, stop_typing, set_typing, stop_each, disconnecting,
}
use chat_app_backend.Chat.Rooms.Typing.{
  shown_typing, InStep, stop_typing-InStep, set_typing-InStep, stop_typing-typing,
}

-- What happens to the typing timers of a socket: a client's event; a timer that fires, a message that
-- is sent or a room that is left; the end of the connection.
pub data TypingStep : Type 0 where
  sets : ℕ → Bool → TypingStep
  stops : ℕ → TypingStep
  disconnects : TypingStep

abbrev pub typing_step : ℕ → SocketUser → TypingStep → World → World
typing_step id user (sets d b) w = (set_typing id user d b w).1
typing_step id user (stops d) w = (stop_typing id user d w).1
typing_step id user disconnects w = (disconnecting id user w).1

abbrev pub typing_steps : ℕ → SocketUser → List TypingStep → World → World
typing_steps id user [] w = w
typing_steps id user (step ∷ steps) w = typing_steps id user steps (typing_step id user step w)

still_covered :
    (running here later left : Bool)
    → left ≡ (running && not here)
    → (running ≡ false) ⊎ ((here || later) ≡ true)
    → (left ≡ false) ⊎ (later ≡ true)
still_covered false here later left e k = inl e
still_covered true true later left e k = inl e
still_covered true false later left e (inl k) = cc
still_covered true false later left e (inr k) = inr k

module _ (id : ℕ) (user : SocketUser) (c : ℕ) where
  stop_typing-ok :
      (d : ℕ) (w : World) → stop_typing id user d w ≡ (ok tt, (stop_typing id user d w).1)
  unfolding stop_typing clear_timer emit_typing sync emit_from
  stop_typing-ok d w = elim (Bool-cases (has d (typing_in id w.db))) [
    | inl e ↦ rw e refl
    | inr e ↦ rw e refl
  ]

  stop_each-InStep :
      (cs : List ℕ) (w : World) → InStep id c w → InStep id c (stop_each id user cs w).1
  unfolding stop_each
  stop_each-InStep [] w h = h
  stop_each-InStep (d ∷ cs) w h =
      subst (InStep id c)
        (sym (
          ap (λ (r : Result (Unit {0}) × World). (next (λ _. stop_each id user cs) r).1)
            (stop_typing-ok d w)))
        (stop_each-InStep cs (stop_typing id user d w).1 (stop_typing-InStep id c user d w h))

  stop_each-silent :
      (cs : List ℕ) (w : World)
      → InStep id c w
      → (has c (typing_in id w.db) ≡ false) ⊎ (has c cs ≡ true)
      → has c (typing_in id (stop_each id user cs w).1.db) ≡ false
  unfolding stop_each
  stop_each-silent [] w h (inl e) = e
  stop_each-silent [] w h (inr e) = cc
  stop_each-silent (d ∷ cs) w h k =
      let next_world = (stop_typing id user d w).1 in
      subst (λ x. has c (typing_in id x.db) ≡ false)
        (sym (
          ap (λ (r : Result (Unit {0}) × World). (next (λ _. stop_each id user cs) r).1)
            (stop_typing-ok d w)))
        (stop_each-silent cs next_world (stop_typing-InStep id c user d w h) (
          still_covered (has c (typing_in id w.db)) (c == d) (has c cs)
            (has c (typing_in id next_world.db)) (stop_typing-typing id c user d w h.connected)
            (covers k)))
    where
      covers :
          (has c (typing_in id w.db) ≡ false) ⊎ (has c (d ∷ cs) ≡ true)
          → (has c (typing_in id w.db) ≡ false) ⊎ (((c == d) || has c cs) ≡ true)
      covers (inl e) = inl e
      covers (inr e) = inr (rw (==_comm c d) e)

  typing_step-InStep :
      (step : TypingStep) (w : World) → InStep id c w → InStep id c (typing_step id user step w)
  unfolding disconnecting sync
  typing_step-InStep (sets d b) w h = set_typing-InStep id c user d b w h
  typing_step-InStep (stops d) w h = stop_typing-InStep id c user d w h
  typing_step-InStep disconnects w h = stop_each-InStep (typing_in id w.db) w h

  -- Take a connected socket and a conversation `c`, where by what was sent to the conversation's room the others there
  -- see the socket typing exactly when a typing timer runs for it, and were told nothing twice in a row. After any typing
  -- events in any conversations, timers that fire, messages sent, rooms left and the disconnect
  -- handler, one after another, the same holds.
  pub typing_steps-InStep :
      (steps : List TypingStep) (w : World)
      → InStep id c w
      → InStep id c (typing_steps id user steps w)
  typing_steps-InStep [] w h = h
  typing_steps-InStep (step ∷ steps) w h =
      typing_steps-InStep steps (typing_step id user step w) (typing_step-InStep step w h)

  -- Take such a socket again, and any such steps. When the disconnect handler has run after them, nobody
  -- in the room of `c` sees the socket typing there.
  pub disconnecting-silent :
      (steps : List TypingStep) (w : World)
      → InStep id c w
      → shown_typing id c (typing_step id user disconnects (typing_steps id user steps w)).emitted
        ≡ false
  unfolding disconnecting sync
  disconnecting-silent steps w h =
      let before = typing_steps id user steps w in
      let ready = typing_steps-InStep steps w h in
      (typing_step-InStep disconnects before ready).agrees
      ∙ stop_each-silent (typing_in id before.db) before ready
          (covered (has c (typing_in id before.db)))
    where
      covered : (b : Bool) → (b ≡ false) ⊎ (b ≡ true)
      covered true = inr refl
      covered false = inl refl
