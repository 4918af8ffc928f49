-- ===== src/Agents/Ranking/Order.antt =====
-- The order in which candidates are tried.
use chat_app_backend.Prelude.{
  ℕ, ◌≤◌, ◌<◌, ◌≡◌, ◌⊎◌, ap, sym, ◌∙◌, Bool, true, false, List, [], ◌∷◌, ◌==◌, ltb, leb, All,
  if◌then◌else◌, count, IsOrdered, IsComparison, filterb, sort, count-sort, count-filterb,
  sort-IsOrdered, Bool-cases, inl, inr, eq_of_==, arith,
}
use chat_app_backend.Documents.{ConversationTopic, AgentProfile, PresenceSnapshot}
use chat_app_backend.Agents.Service.{AgentCandidate}
use chat_app_backend.Agents.Ranking.{rank, not_after, is_available, assigned_time, skill_score}
use chat_app_backend.Agents.Ranking.Skills.{Skilled, skill_cases, clash}
use chat_app_backend.Agents.Ranking.Fitness.{Fit, All-sort, filterb-Fit, count-Fit}

abbrev pub SkilledAlike : ConversationTopic → AgentProfile → AgentProfile → Type 0
SkilledAlike topic p q =
    (Skilled topic p × Skilled topic q) ⊎ ((¬ Skilled topic p) × (¬ Skilled topic q))

-- Agent `a` may be tried before agent `b`: the skill counts before the load, the load before the wait. Who
-- was never assigned to has waited since 1970.
abbrev pub Precedes : ConversationTopic → AgentCandidate → AgentCandidate → Type 0
Precedes topic a b =
    (Skilled topic a.profile × (¬ Skilled topic b.profile))
    ⊎ (SkilledAlike topic a.profile b.profile
        × ((a.profile.active_chats < b.profile.active_chats)
            ⊎ ((a.profile.active_chats ≡ b.profile.active_chats)
                × (assigned_time a.profile ≤ assigned_time b.profile))))

abbrev pub Pairwise : (AgentCandidate → AgentCandidate → Type 0) → List AgentCandidate → Type 0
Pairwise R [] = Unit
Pairwise R (a ∷ agents) = All (R a) agents × Pairwise R agents

load_cases :
    (l l' t t' : ℕ)
    → (if l == l' then leb t t' else ltb l l') ≡ true
    → (l < l') ⊎ ((l ≡ l') × (t ≤ t'))
load_cases l l' t t' h = elim (Bool-cases (l == l')) [
  | inl e ↦ inr (eq_of_== l l' e, leb_le (rw e at h))
  | inr e ↦ inl (ltb_lt (rw e at h))
]
  where
    leb_le : leb t t' ≡ true → t ≤ t'
    leb_le k = ground (arith, k)

    ltb_lt : ltb l l' ≡ true → l < l'
    ltb_lt k = ground (arith, k)

-- What the code compares, with its skill scores as numbers.
abbrev compared : ℕ → ℕ → AgentProfile → AgentProfile → Bool
compared s s' p q =
    if s == s'
    then (if p.active_chats == q.active_chats
        then leb (assigned_time p) (assigned_time q)
        else ltb p.active_chats q.active_chats)
    else ltb s s'

rescored :
    (topic : ConversationTopic) (p q : AgentProfile) (s s' : ℕ)
    → skill_score topic p ≡ s
    → skill_score topic q ≡ s'
    → not_after topic p q ≡ true
    → compared s s' p q ≡ true
unfolding not_after
rescored topic p q s s' e f h =
    sym (ap (λ n. compared n s' p q) e)
    ∙ (sym (ap (λ n. compared (skill_score topic p) n p q) f) ∙ h)

not_after-Precedes :
    (topic : ConversationTopic) (a b : AgentCandidate)
    → not_after topic a.profile b.profile ≡ true
    → Precedes topic a b
not_after-Precedes topic a b h = of (skill_cases topic p) (skill_cases topic q)
  where
    p : AgentProfile
    p = a.profile

    q : AgentProfile
    q = b.profile

    by_load :
        (if p.active_chats == q.active_chats
            then leb (assigned_time p) (assigned_time q)
            else ltb p.active_chats q.active_chats)
          ≡ true
        → (p.active_chats < q.active_chats)
          ⊎ ((p.active_chats ≡ q.active_chats) × (assigned_time p ≤ assigned_time q))
    by_load = load_cases p.active_chats q.active_chats (assigned_time p) (assigned_time q)

    of :
        (Skilled topic p × (skill_score topic p ≡ 0))
          ⊎ ((¬ Skilled topic p) × (skill_score topic p ≡ 1))
        → (Skilled topic q × (skill_score topic q ≡ 0))
          ⊎ ((¬ Skilled topic q) × (skill_score topic q ≡ 1))
        → Precedes topic a b
    of (inl (k, e)) (inl (m, f)) = inr (inl (k, m), by_load (rescored topic p q 0 0 e f h))
    of (inl (k, e)) (inr (m, f)) = inl (k, m)
    of (inr (k, e)) (inl (m, f)) = elim (clash (sym (rescored topic p q 1 0 e f h))) [ ]
    of (inr (k, e)) (inr (m, f)) = inr (inr (k, m), by_load (rescored topic p q 1 1 e f h))

lex : ℕ → ℕ → ℕ → ℕ → ℕ → ℕ → Bool
lex s l t s' l' t' = if s == s' then (if l == l' then leb t t' else ltb l l') else ltb s s'

lex_total : (s l t s' l' t' : ℕ) → lex s l t s' l' t' ≡ false → lex s' l' t' s l t ≡ true
unfolding lex
lex_total s l t s' l' t' h = ground arith

lex_trans :
    (s l t s' l' t' s'' l'' t'' : ℕ)
    → lex s l t s' l' t' ≡ true
    → lex s' l' t' s'' l'' t'' ≡ true
    → lex s l t s'' l'' t'' ≡ true
unfolding lex
lex_trans s l t s' l' t' s'' l'' t'' h k = ground arith

not_after-IsComparison :
    (topic : ConversationTopic)
    → IsComparison (λ (a b : AgentCandidate). not_after topic a.profile b.profile)
unfolding not_after lex
not_after-IsComparison topic = record {
  total = λ a b h.
      lex_total (skill_score topic a.profile) a.profile.active_chats (assigned_time a.profile)
        (skill_score topic b.profile) b.profile.active_chats (assigned_time b.profile) h;
  trans = λ a b c h k.
      lex_trans (skill_score topic a.profile) a.profile.active_chats (assigned_time a.profile)
        (skill_score topic b.profile) b.profile.active_chats (assigned_time b.profile)
        (skill_score topic c.profile) c.profile.active_chats (assigned_time c.profile) h k;
}

module _ {P Q : AgentCandidate → Type 0} where
  All-imply :
      ((a : AgentCandidate) → P a → Q a)
      → (agents : List AgentCandidate) → All P agents
      → All Q agents
  All-imply f [] h = tt
  All-imply f (a ∷ agents) (p, h) = (f a p, All-imply f agents h)

module _ {R : AgentCandidate → AgentCandidate → Type 0}
    (before : AgentCandidate → AgentCandidate → Bool)
    (means : (a b : AgentCandidate) → before a b ≡ true → R a b) where
  IsOrdered-Pairwise : (agents : List AgentCandidate) → IsOrdered before agents → Pairwise R agents
  IsOrdered-Pairwise [] h = tt
  IsOrdered-Pairwise (a ∷ agents) (h, o) =
      (All-imply (means a) agents h, IsOrdered-Pairwise agents o)

module _ (presence : ℕ → PresenceSnapshot) where
  -- The ranked candidates are tried in order: of any two, whoever has the asked skill stands before who has not,
  -- of those alike in that the one with fewer chats, of those with as many the one that was assigned to
  -- longest ago. All of them are connected, take chats and have room; and the agents of any choice `q` that
  -- holds of none but such agents are all there, as often as they were given.
  pub rank-Precedes :
      (topic : ConversationTopic) (agents : List AgentCandidate) (q : AgentCandidate → Bool)
      → All (λ a. q a ≡ true → Fit presence a) agents
      → Pairwise (Precedes topic) (rank presence topic agents)
        × (All (Fit presence) (rank presence topic agents)
            × (count q (rank presence topic agents) ≡ count q agents))
  unfolding rank
  rank-Precedes topic agents q h =
      let before = λ (a b : AgentCandidate). not_after topic a.profile b.profile in
      let free = filterb (is_available presence) agents in
      (
        IsOrdered-Pairwise before (not_after-Precedes topic) (sort before free)
            (sort-IsOrdered before (not_after-IsComparison topic) free),
        (
          All-sort (Fit presence) before free (filterb-Fit presence agents),
          count-sort before q free
              ∙ count-filterb (is_available presence) q agents
              ∙ count-Fit presence q agents h,
        ),
      )
