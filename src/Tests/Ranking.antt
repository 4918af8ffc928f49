-- ===== src/Tests/Ranking.antt =====
-- Three candidates for a billing question.
use chat_app_backend.Prelude.{
  ℕ, ◌≡◌, refl, Bool, true, none, List, [], ◌∷◌, ◌||◌, ◌==◌, map, count, All, arith,
}
use chat_app_backend.Access.{agent}
use chat_app_backend.Documents.{PresenceSnapshot, approved, billing}
use chat_app_backend.Agents.Service.{AgentCandidate}
use chat_app_backend.Agents.Ranking.{rank, not_after, is_available, skill_score}
use chat_app_backend.Agents.Ranking.Order.{Pairwise, Precedes, rank-Precedes}
use chat_app_backend.Agents.Ranking.Fitness.{Fit}
use chat_app_backend.Tests.Samples.{desk}

abbrev candidate : ℕ → ℕ → AgentCandidate
candidate id chats = record {
  user = record {
    id = id;
    name = id;
    email = id;
    role = agent;
    status = approved;
    created_at = id;
  };
  profile = desk id chats;
}

abbrev unskilled : AgentCandidate
unskilled = record (candidate 9 0) { profile = record (desk 9 0) { skills = [] } }

-- The last one is full.
abbrev team : List AgentCandidate
team = unskilled ∷ candidate 7 1 ∷ candidate 8 0 ∷ candidate 6 2 ∷ []

abbrev all_here : ℕ → PresenceSnapshot
all_here id = record { online = true; last_seen = none }

-- The agents 7 and 8 have room.
abbrev seven_eight : AgentCandidate → Bool
seven_eight a = a.profile.user_id == 7 || a.profile.user_id == 8

rank-Precedes_example :
    Pairwise (Precedes billing) (rank all_here billing team)
    × (All (Fit all_here) (rank all_here billing team)
        × (count seven_eight (rank all_here billing team) ≡ count seven_eight team))
rank-Precedes_example =
    rank-Precedes all_here billing team seven_eight (
      λ e. cc,
      (λ e. (refl, (refl, omega arith)), (λ e. (refl, (refl, omega arith)), (λ e. cc, tt))),
    )

ranked :
    map (λ (a : AgentCandidate). a.profile.user_id) (rank all_here billing team) ≡ 8 ∷ 7 ∷ 9 ∷ []
unfolding rank not_after is_available skill_score
ranked = refl
