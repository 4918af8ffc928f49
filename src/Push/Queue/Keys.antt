-- ===== src/Push/Queue/Keys.antt =====
-- The ids of the jobs: what BullMQ's rule, that a known id is ignored, comes to with these ids.
use chat_app_backend.Prelude.{
  ℕ, ◌≤◌, ◌≡◌, refl, ap, sym, ◌∙◌, Bool, true, false, ◌&&◌, List, [], ◌∷◌, any, count, one_if,
  Bool-cases, inl, inr, arith, ◌==◌, eq_of_==, ==_refl,
}
use chat_app_backend.Push.Jobs.{Job, notify, deliver}
use chat_app_backend.Push.Queue.{same_job, BullMq, IsBullMq, add_bulk}

-- The job that finds out whom to tell of the message.
abbrev pub is_notice : ℕ → Job → Bool
is_notice message_id (notify message delay) = message.message_id == message_id
is_notice message_id (deliver id payload) = false

-- The job that tells the device of the message.
abbrev pub is_delivery : ℕ → ℕ → Job → Bool
is_delivery device message_id (notify message delay) = false
is_delivery device message_id (deliver id payload) =
    id == device && payload.message_id == message_id

-- For each message at most one notice, and for each message and device at most one delivery.
pub record IsUnique (queue : List Job) : Type 0 where
  pub notices : (m : ℕ) → count (is_notice m) queue ≤ 1
  pub deliveries : (d m : ℕ) → count (is_delivery d m) queue ≤ 1

-- A test that holds of the jobs of one id alone.
record IsKey (p : Job → Bool) : Type 0 where
  respects : (j k : Job) → same_job j k ≡ true → p j ≡ true → p k ≡ true
  determines : (j k : Job) → p j ≡ true → p k ≡ true → same_job j k ≡ true

both : (b c : Bool) → (b && c) ≡ true → (b ≡ true) × (c ≡ true)
both true c h = (refl, h)
both false c h = cc

meet : (l m n : ℕ) → (l == n) ≡ true → (m == n) ≡ true → (l == m) ≡ true
meet l m n e f = rw (eq_of_== l n e, eq_of_== m n f) (==_refl n)

follow : (l m n : ℕ) → (l == m) ≡ true → (l == n) ≡ true → (m == n) ≡ true
follow l m n e f = rw (sym (eq_of_== l m e)) f

is_notice-IsKey : (m : ℕ) → IsKey (is_notice m)
is_notice-IsKey m = record { respects = respects; determines = determines }
  where
    respects : (j k : Job) → same_job j k ≡ true → is_notice m j ≡ true → is_notice m k ≡ true
    respects (notify c x) (notify d y) e h = follow c.message_id d.message_id m e h
    respects (notify c x) (deliver i p) e h = cc
    respects (deliver i p) k e h = cc

    determines : (j k : Job) → is_notice m j ≡ true → is_notice m k ≡ true → same_job j k ≡ true
    determines (notify c x) (notify d y) e h = meet c.message_id d.message_id m e h
    determines (notify c x) (deliver i p) e h = cc
    determines (deliver i p) k e h = cc

is_delivery-IsKey : (d m : ℕ) → IsKey (is_delivery d m)
is_delivery-IsKey d m = record { respects = respects; determines = determines }
  where
    respects :
        (j k : Job) → same_job j k ≡ true → is_delivery d m j ≡ true → is_delivery d m k ≡ true
    respects (deliver i p) (deliver j q) e h =
        let (e1, e2) = both (p.message_id == q.message_id) (i == j) e in
        let (h1, h2) = both (i == d) (p.message_id == m) h in
        rw (follow i j d e2 h1, follow p.message_id q.message_id m e1 h2) refl
    respects (deliver i p) (notify c x) e h = cc
    respects (notify c x) k e h = cc

    determines :
        (j k : Job) → is_delivery d m j ≡ true → is_delivery d m k ≡ true → same_job j k ≡ true
    determines (deliver i p) (deliver j q) e h =
        let (e1, e2) = both (i == d) (p.message_id == m) e in
        let (h1, h2) = both (j == d) (q.message_id == m) h in
        rw (meet i j d e1 h1, meet p.message_id q.message_id m e2 h2) refl
    determines (deliver i p) (notify c x) e h = cc
    determines (notify c x) k e h = cc

module _ (p : Job → Bool) (key : IsKey p) where
  count-same_job :
      (job : Job) (queue : List Job)
      → any (same_job job) queue ≡ true
      → p job ≡ true
      → 1 ≤ count p queue
  count-same_job job [] e h = cc
  count-same_job job (k ∷ queue) e h = elim (Bool-cases (same_job job k)) [
    | inl s ↦ omega (arith, ap one_if (key.respects job k s h))
    | inr s ↦ omega (arith, count-same_job job queue (rw s at e) h)
  ]

  count-no_job :
      (job : Job) (queue : List Job)
      → any (same_job job) queue ≡ false
      → p job ≡ true
      → count p queue ≡ 0
  count-no_job job [] e h = refl
  count-no_job job (k ∷ queue) e h = elim (Bool-cases (same_job job k)) [
    | inl s ↦ let f : true ≡ false = rw s at e in cc
    | inr s ↦ elim (Bool-cases (p k)) [
      | inl t ↦ let f : true ≡ false = sym (key.determines job k h t) ∙ s in cc
      | inr t ↦ omega (arith, ap one_if t, count-no_job job queue (rw s at e) h)
    ]
  ]

  module _ (bull_mq : BullMq) (manual : IsBullMq bull_mq) where
    add-one :
        (job : Job) (queue : List Job) → count p queue ≤ 1 → count p (bull_mq.add job queue) ≤ 1
    add-one job queue u = elim (Bool-cases (any (same_job job) queue)) [
      | inl e ↦ rw (manual.add_lem job queue, e) u
      | inr e ↦
          rw (manual.add_lem job queue, e)
            (elim (Bool-cases (p job)) [
              | inl h ↦ omega (arith, ap one_if h, count-no_job job queue e h)
              | inr h ↦ omega (arith, ap one_if h, u)
            ])
    ]

    -- What is there stays, and what is added is there.
    add-count : (job : Job) (queue : List Job) → count p queue ≤ count p (bull_mq.add job queue)
    add-count job queue = elim (Bool-cases (any (same_job job) queue)) [
      | inl e ↦ rw (manual.add_lem job queue, e) (omega arith)
      | inr e ↦ rw (manual.add_lem job queue, e) (omega arith)
    ]

    add-there : (job : Job) (queue : List Job) → p job ≡ true → 1 ≤ count p (bull_mq.add job queue)
    add-there job queue h = elim (Bool-cases (any (same_job job) queue)) [
      | inl e ↦ rw (manual.add_lem job queue, e) (count-same_job job queue e h)
      | inr e ↦ rw (manual.add_lem job queue, e) (omega (arith, ap one_if h))
    ]

    add_bulk-one :
        (jobs queue : List Job) → count p queue ≤ 1 → count p (add_bulk bull_mq jobs queue) ≤ 1
    add_bulk-one [] queue u = u
    add_bulk-one (job ∷ jobs) queue u =
        add_bulk-one jobs (bull_mq.add job queue) (add-one job queue u)

    add_bulk-count : (jobs queue : List Job) → count p queue ≤ count p (add_bulk bull_mq jobs queue)
    add_bulk-count [] queue = omega arith
    add_bulk-count (job ∷ jobs) queue =
        omega (arith, add-count job queue, add_bulk-count jobs (bull_mq.add job queue))

    add_bulk-there :
        (jobs queue : List Job) → any p jobs ≡ true → 1 ≤ count p (add_bulk bull_mq jobs queue)
    add_bulk-there [] queue h = cc
    add_bulk-there (job ∷ jobs) queue h = elim (Bool-cases (p job)) [
      | inl e ↦ omega (arith, add-there job queue e, add_bulk-count jobs (bull_mq.add job queue))
      | inr e ↦ add_bulk-there jobs (bull_mq.add job queue) (rw e at h)
    ]

module _ (bull_mq : BullMq) (manual : IsBullMq bull_mq) (jobs queue : List Job) where
  pub add_bulk-IsUnique : IsUnique queue → IsUnique (add_bulk bull_mq jobs queue)
  add_bulk-IsUnique u = record {
    notices =
        λ m. add_bulk-one (is_notice m) (is_notice-IsKey m) bull_mq manual jobs queue (u.notices m);
    deliveries = λ d m.
        add_bulk-one (is_delivery d m) (is_delivery-IsKey d m) bull_mq manual jobs queue
          (u.deliveries d m);
  }

  pub add_bulk-notice :
      (m : ℕ)
      → any (is_notice m) jobs ≡ true
      → 1 ≤ count (is_notice m) (add_bulk bull_mq jobs queue)
  add_bulk-notice m h = add_bulk-there (is_notice m) (is_notice-IsKey m) bull_mq manual jobs queue h

  pub add_bulk-delivery :
      (d m : ℕ)
      → any (is_delivery d m) jobs ≡ true
      → 1 ≤ count (is_delivery d m) (add_bulk bull_mq jobs queue)
  add_bulk-delivery d m h =
      add_bulk-there (is_delivery d m) (is_delivery-IsKey d m) bull_mq manual jobs queue h
