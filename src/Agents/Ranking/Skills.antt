-- ===== src/Agents/Ranking/Skills.antt =====
-- Who has the skill that a conversation asks for.
use chat_app_backend.Prelude.{
  ◌≡◌, ◌≢◌, ◌⊎◌, refl, sym, ◌∙◌, Bool, true, false, not, ◌&&◌, List, [], ◌∷◌, any, Bool-cases, inl,
  inr,
}
use chat_app_backend.Documents.{ConversationTopic, general, billing, technical, sales, AgentProfile}
use chat_app_backend.Agents.Ranking.{skill_score, same_topic}

abbrev pub Has : ConversationTopic → List ConversationTopic → Type 0
Has topic [] = ⊥
Has topic (s ∷ skills) = (s ≡ topic) ⊎ Has topic skills

-- A general question asks for no skill.
abbrev pub Skilled : ConversationTopic → AgentProfile → Type 0
Skilled topic p = (topic ≢ general) × Has topic p.skills

same_topic-eq : (t s : ConversationTopic) → same_topic t s ≡ true → s ≡ t
same_topic-eq general general h = refl
same_topic-eq general billing h = cc
same_topic-eq general technical h = cc
same_topic-eq general sales h = cc
same_topic-eq billing general h = cc
same_topic-eq billing billing h = refl
same_topic-eq billing technical h = cc
same_topic-eq billing sales h = cc
same_topic-eq technical general h = cc
same_topic-eq technical billing h = cc
same_topic-eq technical technical h = refl
same_topic-eq technical sales h = cc
same_topic-eq sales general h = cc
same_topic-eq sales billing h = cc
same_topic-eq sales technical h = cc
same_topic-eq sales sales h = refl

same_topic_refl : (t : ConversationTopic) → same_topic t t ≡ true
same_topic_refl general = refl
same_topic_refl billing = refl
same_topic_refl technical = refl
same_topic_refl sales = refl

any-Has :
    (t : ConversationTopic) (ss : List ConversationTopic) → Has t ss → any (same_topic t) ss ≡ true
any-Has t [] h = absurd h
any-Has t (s ∷ ss) (inl e) = rw (e, same_topic_refl t) refl
any-Has t (s ∷ ss) (inr h) = elim (Bool-cases (same_topic t s)) [
  | inl e ↦ rw e refl
  | inr e ↦ rw e (any-Has t ss h)
]

Has-any :
    (t : ConversationTopic) (ss : List ConversationTopic) → any (same_topic t) ss ≡ true → Has t ss
Has-any t [] h = cc
Has-any t (s ∷ ss) h = elim (Bool-cases (same_topic t s)) [
  | inl e ↦ inl (same_topic-eq t s e)
  | inr e ↦ inr (Has-any t ss (rw e at h))
]

wanted : (b c : Bool) → (not b && c) ≡ true → (b ≡ false) × (c ≡ true)
wanted true c h = cc
wanted false true h = (refl, refl)
wanted false false h = cc

unwanted : (b c : Bool) → (not b && c) ≡ false → (b ≡ true) ⊎ (c ≡ false)
unwanted true c h = inl refl
unwanted false true h = cc
unwanted false false h = inr refl

pub clash : true ≢ false
clash e = cc

same_general : (t : ConversationTopic) → t ≡ general → same_topic t general ≡ true
same_general t e = rw e refl

pub skill_cases :
    (topic : ConversationTopic) (p : AgentProfile)
    → (Skilled topic p × (skill_score topic p ≡ 0))
      ⊎ ((¬ Skilled topic p) × (skill_score topic p ≡ 1))
unfolding skill_score
skill_cases topic p =
    elim (Bool-cases (not (same_topic topic general) && any (same_topic topic) p.skills)) [
      | inl e ↦
          let w = wanted (same_topic topic general) (any (same_topic topic) p.skills) e in
          inl
            ((λ g. clash (sym (same_general topic g) ∙ w.0), Has-any topic p.skills w.1), rw e refl)
      | inr e ↦ inr (
        λ s. elim (unwanted (same_topic topic general) (any (same_topic topic) p.skills) e) [
          | inl b ↦ s.0 (sym (same_topic-eq topic general b))
          | inr b ↦ clash (sym (any-Has topic p.skills s.1) ∙ b)
        ],
        rw e refl,
      )
    ]
