-- ===== src/Agents/Ranking/Fitness.antt =====
-- Who may take a conversation.
use chat_app_backend.Prelude.{
  ℕ, ◌<◌, ◌≡◌, refl, Bool, true, false, ◌&&◌, List, [], ◌∷◌, ltb, All, count, filterb, sort, place,
  Bool-cases, inl, inr, arith,
}
use chat_app_backend.Documents.{
  AgentAvailability, online, busy, offline, PresenceSnapshot, is_online,
}
use chat_app_backend.Agents.Service.{AgentCandidate}
use chat_app_backend.Agents.Ranking.{is_available}

-- An agent who is connected, takes chats and has room for one more.
abbrev pub Fit : (ℕ → PresenceSnapshot) → AgentCandidate → Type 0
Fit presence a =
    ((presence a.user.id).online ≡ true)
    × ((a.profile.availability ≡ online)
        × (a.profile.active_chats < a.profile.max_concurrent_chats))

module _ (P : AgentCandidate → Type 0) (before : AgentCandidate → AgentCandidate → Bool) where
  All-place :
      (a : AgentCandidate) (agents : List AgentCandidate)
      → P a
      → All P agents
      → All P (place before a agents)
  All-place a [] p h = (p, tt)
  All-place a (b ∷ agents) p (q, h) = elim (Bool-cases (before a b)) [
    | inl e ↦ rw e (p, (q, h))
    | inr e ↦ rw e (q, All-place a agents p h)
  ]

  pub All-sort : (agents : List AgentCandidate) → All P agents → All P (sort before agents)
  All-sort [] h = tt
  All-sort (a ∷ agents) (p, h) = All-place a (sort before agents) p (All-sort agents h)

is_online-eq : (x : AgentAvailability) → is_online x ≡ true → x ≡ online
is_online-eq online h = refl
is_online-eq busy h = cc
is_online-eq offline h = cc

available-Fit :
    (presence : ℕ → PresenceSnapshot) (a : AgentCandidate)
    → is_available presence a ≡ true
    → Fit presence a
unfolding is_available
available-Fit presence a h =
    of (presence a.user.id).online (is_online a.profile.availability)
      (ltb a.profile.active_chats a.profile.max_concurrent_chats) refl refl refl h
  where
    less :
        ltb a.profile.active_chats a.profile.max_concurrent_chats ≡ true
        → a.profile.active_chats < a.profile.max_concurrent_chats
    less k = ground (arith, k)

    of :
        (x y z : Bool)
        → (presence a.user.id).online ≡ x
        → is_online a.profile.availability ≡ y
        → ltb a.profile.active_chats a.profile.max_concurrent_chats ≡ z
        → (x && (y && z)) ≡ true
        → Fit presence a
    of true true true e f g k = (e, (is_online-eq a.profile.availability f, less g))
    of true true false e f g k = cc
    of true false z e f g k = cc
    of false y z e f g k = cc

Fit-available :
    (presence : ℕ → PresenceSnapshot) (a : AgentCandidate)
    → Fit presence a
    → is_available presence a ≡ true
unfolding is_available
Fit-available presence a (e, (f, g)) = rw (e, f) (ground (arith, g))

module _ (presence : ℕ → PresenceSnapshot) where
  pub filterb-Fit :
      (agents : List AgentCandidate) → All (Fit presence) (filterb (is_available presence) agents)
  filterb-Fit [] = tt
  filterb-Fit (a ∷ agents) = elim (Bool-cases (is_available presence a)) [
    | inl e ↦ rw e (available-Fit presence a e, filterb-Fit agents)
    | inr e ↦ rw e (filterb-Fit agents)
  ]

  pub count-Fit :
      (q : AgentCandidate → Bool) (agents : List AgentCandidate)
      → All (λ a. q a ≡ true → Fit presence a) agents
      → count (λ a. is_available presence a && q a) agents ≡ count q agents
  count-Fit q [] h = refl
  count-Fit q (a ∷ agents) (f, h) = elim (Bool-cases (q a)) [
    | inl e ↦ rw (e, Fit-available presence a (f e), count-Fit q agents h) refl
    | inr e ↦ elim (Bool-cases (is_available presence a)) [
      | inl g ↦ rw (e, g, count-Fit q agents h) refl
      | inr g ↦ rw (e, g, count-Fit q agents h) refl
    ]
  ]
