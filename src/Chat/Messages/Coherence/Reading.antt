-- ===== src/Chat/Messages/Coherence/Reading.antt =====
-- A read of the history keeps the cache in agreement with the messages, and returns what they give.
use chat_app_backend.Prelude.{
  ℕ, ◌≤◌, ◌≡◌, refl, ap, Bool, true, false, Option, none, some, if◌then◌else◌, arith, inl, inr,
  Bool-cases, Option-cases,
}
use chat_app_backend.Errors.{Result, ok, err, Failure}
use chat_app_backend.Mongo.{Mongo}
use chat_app_backend.Redis.{Redis, IsRedis}
use chat_app_backend.Server.{Db, M, pure, Turn, access, try_catch, quiet, current_time}
use chat_app_backend.Server.Triples.{
  Stays, Stays-pure, Stays-bind, Stays-throw, Triple, IsStable, Triple-access, Triple-bind,
  Triple-pure, Triple-try, Triple-current_time,
}
use chat_app_backend.Chat.Pages.{HistoryPage}
use chat_app_backend.Chat.Cache.{
  Lookup, hit, miss, noop, found, get_first_page, look_up, is_ready, store, set_page,
}
use chat_app_backend.Chat.Conversations.{or_throw}
use chat_app_backend.Chat.Messages.{
  CursorText, decode_cursor, get_history, load_page, fill, page_of, is_in,
}
use chat_app_backend.Chat.Messages.Coherence.{
  key_of, Fresh, Coherent, IsHonest, Coherent-stable, stored_page,
}

module _ (mongo : Mongo) (redis : Redis) (laws : IsRedis redis) (ready : ℕ → Bool) (c : ℕ) where
  abbrev Good : ℕ → Db → Type 0
  Good k db = Coherent mongo redis ready c k db

  abbrev Honest : Turn → Type 0
  Honest t = IsHonest mongo redis ready c t

  -- Coherent, and the version `v` has been reached.
  record Reached (v : ℕ) (db : Db) : Type 0 where
    good : Good 0 db
    known : v ≤ db.versions c

  record Fitting (v l : ℕ) (page : HistoryPage) (db : Db) : Type 0 where
    good : Good 0 db
    fresh : Fresh mongo redis ready c 0 v l page db

  Reached-stable : (v : ℕ) → IsStable Honest (Reached v)
  Reached-stable v = record {
    succeeds = λ t h. h.succeeds;
    keeps = λ t db h p. record {
      good = h.keeps_cached 0 db p.good;
      known = omega (arith, p.known, h.keeps_version db);
    };
  }

  Fitting-stable : (v l : ℕ) (page : HistoryPage) → IsStable Honest (Fitting v l page)
  Fitting-stable v l page = record {
    succeeds = λ t h. h.succeeds;
    keeps = λ t db h p. record {
      good = h.keeps_cached 0 db p.good;
      fresh = h.keeps_fresh 0 v l page db p.fresh;
    };
  }

  pub read-Good :
      {A : Type 0} (f : ℕ → Db → A) → Stays Honest (Good 0) (access (λ now db. (db, f now db)))
  read-Good f = Triple-access _ (Coherent-stable mongo redis ready c 0) (λ now db h. h)

  store-Good :
      (v l : ℕ) (page : HistoryPage)
      → Triple Honest (Fitting v l page) (store redis ready (key_of c v l) page) (λ r db. Good 0 db)
  unfolding store set_page
  store-Good v l page =
      Triple-try {R = λ r db. Good 0 db}
        (Triple-access _ (Fitting-stable v l page)
          (λ now db h. stored_page mongo redis ready c laws v l page db h.good h.fresh))
        (λ e. Stays-pure tt) (λ a db h. h)

  -- What fills the cache after a miss does so under a version that has been reached.
  Fills : ℕ → ℕ → (HistoryPage → M (Unit {0})) → Type 0
  Fills v l fill_cache =
      (page : HistoryPage) → Triple Honest (Fitting v l page) (fill_cache page) (λ r db. Good 0 db)

  Looked : ℕ → Result Lookup → Db → Type 0
  Looked l (ok (hit page)) db = Good 0 db
  Looked l (ok (miss fill_cache)) db = (v : ℕ) × (Reached v db × Fills v l fill_cache)
  Looked l (err e) db = Good 0 db

  noop-Looked : (l : ℕ) (db : Db) → Good 0 db → Looked l (ok (miss noop)) db
  unfolding Looked Fills
  noop-Looked l db h =
      (0, (record { good = h; known = omega arith }, λ page. Triple-pure tt (λ db f. f.good)))

  found-Looked :
      (v l : ℕ) (o : Option HistoryPage) (db : Db)
      → Reached v db
      → Looked l (ok (found redis ready (key_of c v l) o)) db
  unfolding Looked Fills found
  found-Looked v l none db h = (v, (h, store-Good v l))
  found-Looked v l (some page) db h = h.good

  get_first_page-Looked :
      (l : ℕ) → Triple Honest (Good 0) (get_first_page redis ready c l) (Looked l)
  unfolding get_first_page look_up is_ready Looked
  get_first_page-Looked l =
      Triple-bind (Stays-bind Triple-current_time (λ now. Stays-pure _)) up (λ e db h. h)
    where
      up :
          (b : Bool)
          → Triple Honest
              (Good 0)
              (if b
                then try_catch (look_up redis ready c l) (λ e. pure (miss noop))
                else pure (miss noop))
              (Looked l)
      up false = Triple-pure _ (noop-Looked l)
      up true =
          Triple-try {R = Looked l}
            (Triple-bind {R = λ r db. elim r [ ok v ↦ Reached v db | err e ↦ Good 0 db ]}
              (Triple-access _ (Coherent-stable mongo redis ready c 0)
                (λ now db h. record { good = h; known = omega arith }))
              (λ v.
                Triple-bind {R = λ r db. Reached v db}
                  (Triple-access _ (Reached-stable v) (λ now db h. h))
                  (λ o. Triple-pure _ (found-Looked v l o)) (λ e db h. h.good))
              (λ e db h. h))
            (λ e. Triple-pure _ (noop-Looked l)) (λ x db h. h)

  load-Fitting :
      (v l : ℕ)
      → Triple Honest
          (Reached v)
          (load_page mongo redis ready (is_in c) l)
          (λ r db. elim r [ ok page ↦ Fitting v l page db | err e ↦ Good 0 db ])
  unfolding load_page
  load-Fitting v l = Triple-access _ (Reached-stable v) (λ now db h. record {
    good = h.good;
    fresh = record { known = h.known; current = λ n m. refl };
  })

  pub get_history-Good :
      (cursor : Option CursorText) (l : ℕ)
      → Stays Honest (Good 0) (get_history mongo redis ready c cursor l)
  unfolding get_history fill Looked Fills load_page or_throw
  get_history-Good (some text) l = Stays-bind (known _ (decode_cursor text)) (λ cursor. read-Good _)
    where
      known : {A : Type 0} (e : Failure) (o : Option A) → Stays Honest (Good 0) (or_throw e o)
      known e none = Stays-throw _
      known e (some a) = Stays-pure a
  get_history-Good none l = Triple-bind (get_first_page-Looked l) filled (λ e db h. h)
    where
      filled :
          (x : Lookup)
          → Triple Honest (Looked l (ok x)) (fill mongo redis ready c l x) (λ r db. Good 0 db)
      filled (hit page) = Triple-pure page (λ db h. h)
      filled (miss fill_cache) = record {
        runs = λ w turns h.
            let (v, (reached, fills)) = h in
            (Triple-bind (load-Fitting v l)
                (λ page. Triple-bind (fills page) (λ _. Stays-pure page) (λ e db g. g))
                (λ e db g. g)).runs
              w turns reached;
      }

module _ (mongo : Mongo) (redis : Redis) (ready : ℕ → Bool) (c : ℕ) where
  -- Where the cached pages agree with the messages and no writer is pending, a request for the newest
  -- page that nothing interrupts returns what the messages give, whether the page is cached or not and
  -- whether Redis is connected or not.
  pub get_history-current :
      (l now : ℕ) (db : Db)
      → db.writers c ≡ 0
      → Coherent mongo redis ready c 0 db
      → (get_history mongo redis ready c none l (quiet db now)).0
        ≡ ok (page_of mongo redis ready (is_in c) l db)
  unfolding get_history get_first_page look_up is_ready current_time access found fill load_page
      page_of store set_page
  get_history-current l now db n h = elim (Bool-cases (ready now)) [
    | inl e ↦ elim (Option-cases (db.pages (key_of c (db.versions c) l))) [
      | inl e' ↦ rw (e, e') refl
      | inr (page, e') ↦
          rw (e, e') (ap ok ((h.cached (db.versions c) l page e').current (omega (arith, n)) refl))
    ]
    | inr e ↦ rw e refl
  ]
