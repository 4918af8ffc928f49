-- ===== src/Agents/Books/Handlers.antt =====
-- The parts of the handlers that neither take nor give back a slot, and the assignment itself.
use chat_app_backend.Prelude.{
  ℕ, Bool, true, false, ◌&&◌, Option, none, some, List, [], ◌∷◌, map, same_id, if◌then◌else◌, arith,
  is_none, is_some, subst,
}
use chat_app_backend.Access.{is_agent}
use chat_app_backend.Documents.{AgentProfile, Conversation, is_closed, is_opened}
use chat_app_backend.Errors.{ok}
use chat_app_backend.Realtime.Events.{AssignReason, auto, claim}
use chat_app_backend.Mongo.{Mongo, IsDocumented}
use chat_app_backend.Server.{M, ◌>>=◌}
use chat_app_backend.Server.Triples.{
  Triple, Stays, Stays-pure, Stays-throw, Stays-bind, Stays-if, Triple-bind, Triple-emit,
  Triple-start, Triple-weaken,
}
use chat_app_backend.Users.Service.{PublicUser, find_public_by_id, list_active_agents}
use chat_app_backend.Chat.Conversations.{Requester, find_by_id}
use chat_app_backend.Chat.Assigning.{assign_if_unassigned}
use chat_app_backend.Agents.Service.{
  AgentCandidate, list_agents, ensure_profiles, create_missing, pair_up, presence_snapshot,
}
use chat_app_backend.Agents.Assignment.{
  Assigned, announce, agent_of, broadcast_all, load_changed, require_open, require_found,
  candidates_for, settle_assignment, try_candidates, assign_found, assign_now, settle_claim,
  claim_slot, claim_open, claim_conversation,
}
use chat_app_backend.Agents.Books.{Books, IsCalm}
use chat_app_backend.Agents.Books.Accesses.{
  Attempted, Reserved, release_slot-Books, assign_if_unassigned-Books, read-Books, no_slot,
  forced_slot, profile_of-keeps, reserve_slot-Reserved, upsert_one-Books,
}

-- A handler that ends with the books as it found them.
abbrev pub Keeps : (a k : ℕ) {A : Type 0} → M A → Type 0
Keeps a k m = Stays IsCalm (Books a k) m

module _ (mongo : Mongo) (laws : IsDocumented mongo) (a k : ℕ) where
  pub announce-Keeps :
      (c : Conversation) (previous : Option ℕ) (reason : AssignReason)
      → Keeps a k (announce mongo c previous reason)
  unfolding announce agent_of find_public_by_id
  announce-Keeps c previous reason =
      Stays-bind (agent c.assigned_agent_id) (λ found.
        Stays-bind (Triple-emit _ _) (λ _. all (load_changed c.assigned_agent_id previous)))
    where
      agent : (o : Option ℕ) → Keeps a k (agent_of mongo o)
      agent none = Stays-pure none
      agent (some id) = read-Books mongo laws a k _

      all : (ids : List ℕ) → Keeps a k (broadcast_all ids)
      all [] = Stays-pure tt
      all (id ∷ ids) = Stays-bind (Triple-start _) (λ _. all ids)

  pub require_open-Keeps : (id : ℕ) → Keeps a k (require_open mongo id)
  unfolding require_open find_by_id
  require_open-Keeps id = Stays-bind (read-Books mongo laws a k _) found
    where
      found : (o : Option Conversation) → Keeps a k (require_found mongo o)
      found none = Stays-throw _
      found (some c) = Stays-if (is_closed c.status) (Stays-throw _) (Stays-pure c)

  create_missing-Keeps : (ids : List ℕ) → Keeps a k (create_missing mongo ids)
  unfolding create_missing
  create_missing-Keeps [] = Stays-pure tt
  create_missing-Keeps (id ∷ ids) =
      Stays-bind (upsert_one-Books mongo laws a k id) (λ _. create_missing-Keeps ids)

  pair_up-Keeps : (ps : List AgentProfile) (us : List PublicUser) → Keeps a k (pair_up mongo ps us)
  unfolding pair_up
  pair_up-Keeps ps [] = Stays-pure []
  pair_up-Keeps ps (u ∷ us) =
      Stays-bind (profile_of-keeps u.id ps)
        (λ p. Stays-bind (pair_up-Keeps ps us) (λ rest. Stays-pure _))

  pub list_agents-Keeps : Keeps a k (list_agents mongo)
  unfolding list_agents list_active_agents ensure_profiles
  list_agents-Keeps = Stays-bind (read-Books mongo laws a k _) (λ agents.
      Stays-bind
        (Stays-bind (create_missing-Keeps (map (λ u. u.id) agents))
          (λ _. read-Books mongo laws a k _))
        (λ ps. pair_up-Keeps ps agents))

  candidates_for-Keeps : (c : Conversation) → Keeps a k (candidates_for mongo c)
  unfolding candidates_for presence_snapshot
  candidates_for-Keeps c =
      Stays-bind list_agents-Keeps
        (λ agents. Stays-bind (read-Books mongo laws a k _) (λ presence. Stays-pure _))

  settle_assignment-Keeps :
      (id : ℕ) (r : Option Conversation)
      → Triple IsCalm
          (Attempted a k id (ok r))
          (settle_assignment mongo id r)
          (λ r db. Books a k db)
  unfolding settle_assignment
  settle_assignment-Keeps id none =
      Triple-bind (release_slot-Books mongo laws a k id) (λ _. Stays-pure _) (λ e db b. b)
  settle_assignment-Keeps id (some c) =
      Triple-weaken (λ db b. subst (λ n. Books a n db) (omega arith) b) (λ r db b. b)
        (Stays-bind (announce-Keeps c none auto) (λ _. Stays-pure _))

  -- With the slot the assignment is tried, without it the next step is taken.
  with_slot-Keeps :
      (id agent_id : ℕ) (b : Bool) {rest : M Assigned}
      → Keeps a k rest
      → Triple IsCalm
          (Reserved a k agent_id false (ok b))
          (if b
            then assign_if_unassigned mongo id agent_id >>= settle_assignment mongo agent_id
            else rest)
          (λ r db. Books a k db)
  with_slot-Keeps id agent_id true h =
      Triple-weaken (λ db r. r.0) (λ r db b. b)
        (Triple-bind (assign_if_unassigned-Books mongo laws a k id agent_id)
          (settle_assignment-Keeps agent_id) (λ e db b. b))
  with_slot-Keeps id agent_id false h = Triple-weaken (λ db r. no_slot r.0) (λ r db b. b) h

  try_candidates-Keeps :
      (id : ℕ) (candidates : List AgentCandidate) → Keeps a k (try_candidates mongo id candidates)
  unfolding try_candidates
  try_candidates-Keeps id [] = Stays-pure _
  try_candidates-Keeps id (c ∷ candidates) =
      let rest = try_candidates-Keeps id candidates in
      Triple-bind (reserve_slot-Reserved mongo laws a k c.user.id false)
        (λ b. with_slot-Keeps id c.user.id b rest) (λ e db b. b)

  pub assign_now-Keeps : (id : ℕ) → Keeps a k (assign_now mongo id)
  unfolding assign_now find_by_id
  assign_now-Keeps id = Stays-bind (read-Books mongo laws a k _) found
    where
      found : (o : Option Conversation) → Keeps a k (assign_found mongo id o)
      found none = Stays-pure _
      found (some c) =
          Stays-if (is_opened c.status && is_none c.assigned_agent_id)
            (Stays-bind (candidates_for-Keeps c) (try_candidates-Keeps id)) (Stays-pure _)

  settle_claim-Keeps :
      (id : ℕ) (r : Option Conversation)
      → Triple IsCalm (Attempted a k id (ok r)) (settle_claim mongo id r) (λ r db. Books a k db)
  unfolding settle_claim
  settle_claim-Keeps id none =
      Triple-bind (release_slot-Books mongo laws a k id) (λ _. Stays-throw _) (λ e db b. b)
  settle_claim-Keeps id (some c) =
      Triple-weaken (λ db b. no_slot b) (λ r db b. b)
        (Stays-bind (announce-Keeps c none claim) (λ _. Stays-pure c))

  claim_slot-Keeps : (id agent_id : ℕ) → Keeps a k (claim_slot mongo id agent_id)
  unfolding claim_slot
  claim_slot-Keeps id agent_id =
      Triple-bind (reserve_slot-Reserved mongo laws a k agent_id true)
        (λ b.
          Triple-weaken (λ db r. forced_slot a k agent_id b r) (λ r db b. b)
            (Triple-bind (assign_if_unassigned-Books mongo laws a k id agent_id)
              (settle_claim-Keeps agent_id) (λ e db b. b)))
        (λ e db b. b)

  pub claim_conversation-Keeps :
      (id : ℕ) (actor : Requester) → Keeps a k (claim_conversation mongo id actor)
  unfolding claim_conversation claim_open
  claim_conversation-Keeps id actor =
      Stays-if (is_agent actor.role)
        (Stays-bind (require_open-Keeps id) (λ current.
          Stays-if (same_id current.assigned_agent_id (some actor.id)) (Stays-pure current) (
            Stays-if (is_some current.assigned_agent_id) (Stays-throw _)
              (claim_slot-Keeps id actor.id))))
        (Stays-throw _)
