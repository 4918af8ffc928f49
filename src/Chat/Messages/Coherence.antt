-- ===== src/Chat/Messages/Coherence.antt =====
-- The cached first pages of a conversation's history agree with its messages. A version, once reached, is
-- taken to stay: in Redis it runs out a day after the last write, long after the last page.
pub mod Reading
pub mod Writing
pub mod Threads
use chat_app_backend.Prelude.{
  ℕ, ◌+◌, ◌≤◌, ◌≡◌, ◌≢◌, ◌⊎◌, refl, ap, sym, ◌∙◌, Bool, true, false, ◌&&◌, Option, none, some, List,
  ◌==◌, if◌then◌else◌, All, arith, inl, inr, Bool-cases, eq_of_==, ==_refl, one_if, is_some,
}
use chat_app_backend.Documents.{Message}
use chat_app_backend.Errors.{Result, ok, err, Failure}
use chat_app_backend.Mongo.{Mongo}
use chat_app_backend.Redis.{Redis, IsRedis}
use chat_app_backend.Server.{Db, Turn}
use chat_app_backend.Server.Triples.{IsStable}
use chat_app_backend.Chat.Pages.{PageKey, HistoryPage, same_page}
use chat_app_backend.Chat.Messages.{page_of, is_in}

abbrev pub key_of : ℕ → ℕ → ℕ → PageKey
key_of c v l = record { conversation_id = c; version = v; limit = l }

none_pending : {A : Type 0} (n : ℕ) → n + 1 ≡ 0 → A
none_pending n e = elim (pending e) [ ]
  where
    pending : n + 1 ≢ 0
    pending e = omega (arith, e)

incr-same :
    (redis : Redis)
    → IsRedis redis
    → (c : ℕ) (counters : ℕ → ℕ) → redis.incr c counters c ≡ counters c + 1
incr-same redis laws c counters =
    laws.incr_lem c counters c
    ∙ ap (λ (b : Bool). if b then counters c + 1 else counters c) (==_refl c)

past : {A : Type 0} (v n m : ℕ) → v ≤ n → m ≡ n + 1 → m ≡ v → A
past v n m h e f = none_pending 0 (omega (arith, h, e, f))

-- What is found under a key after a page has been stored under one of the same conversation.
page-cases :
    (c w j v l : ℕ) (page q : HistoryPage) (o : Option HistoryPage)
    → (if same_page (key_of c w j) (key_of c v l) then some page else o) ≡ some q
    → ((w ≡ v) × (j ≡ l) × (page ≡ q)) ⊎ (o ≡ some q)
page-cases c w j v l page q o h = elim (Bool-cases (w == v)) [
  | inl e ↦ elim (Bool-cases (j == l)) [
    | inl e' ↦ inl (eq_of_== w v e, eq_of_== j l e', ap (or_page page) (rw (==_refl c, e, e') at h))
    | inr e' ↦ inr (rw (==_refl c, e, e') at h)
  ]
  | inr e ↦ inr (rw (==_refl c, e) at h)
]
  where
    or_page : HistoryPage → Option HistoryPage → HistoryPage
    or_page p none = p
    or_page p (some x) = x

module _ (mongo : Mongo) (redis : Redis) (ready : ℕ → Bool) (c : ℕ) where
  -- A page that is fit to be stored under the version `v`, where `k` writes of this process await their
  -- new version: with no write pending and the version still `v`, it is what the messages give.
  pub record Fresh (k v l : ℕ) (page : HistoryPage) (db : Db) : Type 0 where
    pub known : v ≤ db.versions c
    pub current :
        db.writers c + k ≡ 0 → db.versions c ≡ v → page ≡ page_of mongo redis ready (is_in c) l db

  pub record Coherent (k : ℕ) (db : Db) : Type 0 where
    pub cached :
        (v l : ℕ) (page : HistoryPage) → db.pages (key_of c v l) ≡ some page → Fresh k v l page db

  -- Other requests count themselves as writers from a write to its new version, store only fresh pages and
  -- never turn a version back; and no access fails.
  pub record IsHonest (t : Turn) : Type 0 where
    pub succeeds : t.fails ≡ false
    pub keeps_version : (db : Db) → db.versions c ≤ (t.others db).versions c
    pub keeps_fresh :
        (k v l : ℕ) (page : HistoryPage) (db : Db)
        → Fresh k v l page db
        → Fresh k v l page (t.others db)
    pub keeps_cached : (k : ℕ) (db : Db) → Coherent k db → Coherent k (t.others db)

  pub Coherent-stable : (k : ℕ) → IsStable IsHonest (Coherent k)
  Coherent-stable k = record {
    succeeds = λ t h. h.succeeds;
    keeps = λ t db h p. h.keeps_cached k db p;
  }

  -- A write of this process makes every page pending.
  pub written :
      (db : Db) (ms : List Message) → Coherent 0 db → Coherent 1 (record db { messages = ms })
  written db ms h = record {
    cached = λ v l page e. record {
      known = (h.cached v l page e).known;
      current = λ n. none_pending (db.writers c) n;
    };
  }

  pub bumped :
      (laws : IsRedis redis) (k : ℕ) (db : Db)
      → Coherent k db
      → Coherent 0 (record db { versions = redis.incr c db.versions })
  bumped laws k db h = record {
    cached = λ v l page e.
        let known = (h.cached v l page e).known in
        record {
          known = omega (arith, known, incr-same redis laws c db.versions);
          current = λ n m. past v (db.versions c) _ known (incr-same redis laws c db.versions) m;
        };
  }

  pub stored_page :
      (laws : IsRedis redis) (v l : ℕ) (page : HistoryPage) (db : Db)
      → Coherent 0 db
      → Fresh 0 v l page db
      → Coherent 0 (record db {
        pages = redis.set PageKey HistoryPage same_page (key_of c v l) page db.pages;
      })
  unfolding page_of
  stored_page laws v l page db h f = record {
    cached = λ w j q e.
        elim (page-cases c w j v l page q _ (
          sym
            (laws.set_lem PageKey HistoryPage same_page (key_of c v l) page db.pages (key_of c w j))
          ∙ e)) [
            | inl (ew, ej, eq) ↦ record {
              known = omega (arith, ew, f.known);
              current = λ n m.
                  sym eq
                  ∙ f.current n (m ∙ ew)
                  ∙ ap (λ i. page_of mongo redis ready (is_in c) i db) (sym ej);
            }
            | inr old ↦ record {
              known = (h.cached w j q old).known;
              current = (h.cached w j q old).current;
            }
          ];
  }
