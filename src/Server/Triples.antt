-- ===== src/Server/Triples.antt =====
-- Triples for handlers: from a database with `P`, among turns of the kind `C`, a handler ends with
-- `Q` of its result and of the database. What the others do between two awaits must keep `P`.
use chat_app_backend.Prelude.{
  ℕ, ◌≡◌, Bool, true, false, if◌then◌else◌, List, [], ◌∷◌, All, Bool-cases, inl, inr,
}
use chat_app_backend.Errors.{Failure, unavailable, Result, ok, err}
use chat_app_backend.Realtime.Rooms.{Room}
use chat_app_backend.Realtime.Events.{Event, Task}
use chat_app_backend.Server.{
  Db, Turn, World, M, pure, throw, next, ◌>>=◌, access, take_turn, emit, emit_from, sync, start,
  handle, try_catch, current_time,
}

pub record Ends (C : Turn → Type 0) {A : Type 0} (Q : Result A → Db → Type 0) (e : Result A × World)
    : Type 0 where
  pub rest : All C e.1.turns
  pub holds : Q e.0 e.1.db

pub record Triple (C : Turn → Type 0) (P : Db → Type 0) {A : Type 0} (m : M A)
    (Q : Result A → Db → Type 0) : Type 0 where
  pub runs : (w : World) → All C w.turns → P w.db → Ends C Q (m w)

-- The turns of this kind do not fail, and keep `P`.
pub record IsStable (C : Turn → Type 0) (P : Db → Type 0) : Type 0 where
  pub succeeds : (t : Turn) → C t → t.fails ≡ false
  pub keeps : (t : Turn) (db : Db) → C t → P db → P (t.others db)

module _ {C : Turn → Type 0} {P : Db → Type 0} {A : Type 0} where
  pub Triple-pure :
      {Q : Result A → Db → Type 0} (a : A)
      → ((db : Db) → P db → Q (ok a) db)
      → Triple C P (pure a) Q
  Triple-pure a h = record { runs = λ w c p. record { rest = c; holds = h w.db p } }

  pub Triple-throw :
      {Q : Result A → Db → Type 0} (e : Failure)
      → ((db : Db) → P db → Q (err e) db)
      → Triple C P (throw e) Q
  Triple-throw e h = record { runs = λ w c p. record { rest = c; holds = h w.db p } }

  pub Triple-access :
      {Q : Result A → Db → Type 0} (f : ℕ → Db → Db × A)
      → IsStable C P
      → ((now : ℕ) (db : Db) → P db → Q (ok (f now db).1) (f now db).0)
      → Triple C P (access f) Q
  unfolding access
  Triple-access {Q} f s h = record { runs = λ w c p. turn w w.turns c p }
    where
      turn : (w : World) (ts : List Turn) → All C ts → P w.db → Ends C Q (take_turn f w ts)
      turn w [] c p = record { rest = tt; holds = h _ _ p }
      turn w (t ∷ ts) c p =
          rw (s.succeeds t c.0) (record { rest = c.1; holds = h _ _ (s.keeps t w.db c.0 p) })

  -- The access may fail: what held before it holds then too.
  pub Triple-attempt :
      {Q : Result A → Db → Type 0} (f : ℕ → Db → Db × A)
      → ((t : Turn) (db : Db) → C t → P db → P (t.others db))
      → ((now : ℕ) (db : Db) → P db → Q (ok (f now db).1) (f now db).0)
      → ((db : Db) → P db → Q (err unavailable) db)
      → Triple C P (access f) Q
  unfolding access
  Triple-attempt {Q} f keeps h lost = record { runs = λ w c p. turn w w.turns c p }
    where
      turn : (w : World) (ts : List Turn) → All C ts → P w.db → Ends C Q (take_turn f w ts)
      turn w [] c p = record { rest = tt; holds = h _ _ p }
      turn w (t ∷ ts) c p = elim (Bool-cases t.fails) [
        | inl e ↦ rw e (record { rest = c.1; holds = lost _ (keeps t w.db c.0 p) })
        | inr e ↦ rw e (record { rest = c.1; holds = h _ _ (keeps t w.db c.0 p) })
      ]

  pub Triple-bind :
      {B : Type 0} {R : Result A → Db → Type 0} {Q : Result B → Db → Type 0} {m : M A} {k : A → M B}
      → Triple C P m R
      → ((a : A) → Triple C (R (ok a)) (k a) Q)
      → ((e : Failure) (db : Db) → R (err e) db → Q (err e) db)
      → Triple C P (m >>= k) Q
  Triple-bind {R} {Q} {m} {k} tm tk te = record { runs = λ w c p. after (m w) (tm.runs w c p) }
    where
      after : (e : Result A × World) → Ends C R e → Ends C Q (next k e)
      after (ok a, w) h = (tk a).runs w h.rest h.holds
      after (err e, w) h = record { rest = h.rest; holds = te e w.db h.holds }

  pub Triple-try :
      {R Q : Result A → Db → Type 0} {m : M A} {h : Failure → M A}
      → Triple C P m R
      → ((e : Failure) → Triple C (R (err e)) (h e) Q)
      → ((a : A) (db : Db) → R (ok a) db → Q (ok a) db)
      → Triple C P (try_catch m h) Q
  Triple-try {R} {Q} {m} {h} tm th ta = record { runs = λ w c p. after (m w) (tm.runs w c p) }
    where
      after : (e : Result A × World) → Ends C R e → Ends C Q (handle h e)
      after (ok a, w) e = record { rest = e.rest; holds = ta a w.db e.holds }
      after (err x, w) e = (th x).runs w e.rest e.holds

  pub Triple-weaken :
      {P' : Db → Type 0} {Q Q' : Result A → Db → Type 0} {m : M A}
      → ((db : Db) → P' db → P db)
      → ((r : Result A) (db : Db) → Q r db → Q' r db)
      → Triple C P m Q
      → Triple C P' m Q'
  Triple-weaken pre post t = record {
    runs = λ w c p.
        let e = t.runs w c (pre w.db p) in record { rest = e.rest; holds = post _ _ e.holds };
  }

-- The rest of a handler may bear other turns than its beginning.
pub Ends-next :
    {C C' : Turn → Type 0} {A B : Type 0} {R : Result A → Db → Type 0} {Q : Result B → Db → Type 0}
    {k : A → M B}
    → ((ts : List Turn) → All C ts → All C' ts)
    → ((a : A) → Triple C' (R (ok a)) (k a) Q)
    → ((e : Failure) (db : Db) → R (err e) db → Q (err e) db)
    → (e : Result A × World) → Ends C R e
    → Ends C' Q (next k e)
Ends-next mono tk te (ok a, w) h = (tk a).runs w (mono w.turns h.rest) h.holds
Ends-next mono tk te (err e, w) h = record { rest = mono w.turns h.rest; holds = te e w.db h.holds }

module _ {C : Turn → Type 0} {P : Db → Type 0} where
  pub Triple-emit : (rooms : List Room) (e : Event) → Triple C P (emit rooms e) (λ r db. P db)
  unfolding emit
  Triple-emit rooms e = record { runs = λ w c p. record { rest = c; holds = p } }

  pub Triple-emit_from :
      (id : ℕ) (room : Room) (e : Event) → Triple C P (emit_from id room e) (λ r db. P db)
  unfolding emit_from
  Triple-emit_from id room e = record { runs = λ w c p. record { rest = c; holds = p } }

  pub Triple-sync :
      {A : Type 0} {Q : Result A → Db → Type 0} (f : Db → Db × A)
      → ((db : Db) → P db → Q (ok (f db).1) (f db).0)
      → Triple C P (sync f) Q
  unfolding sync
  Triple-sync f h = record { runs = λ w c p. record { rest = c; holds = h w.db p } }

  pub Triple-start : (t : Task) → Triple C P (start t) (λ r db. P db)
  unfolding start
  Triple-start t = record { runs = λ w c p. record { rest = c; holds = p } }

  pub Triple-current_time : Triple C P current_time (λ r db. P db)
  unfolding current_time
  Triple-current_time = record { runs = λ w c p. record { rest = c; holds = p } }

-- A fact in the precondition that is not about the database may be used to prove the triple.
pub Triple-use :
    {C : Turn → Type 0} {P P' : Db → Type 0} {F : Type 0} {A : Type 0} {Q : Result A → Db → Type 0}
    {m : M A}
    → ((db : Db) → P' db → P db)
    → ((db : Db) → P' db → F)
    → (F → Triple C P m Q)
    → Triple C P' m Q
Triple-use pre fact t = record { runs = λ w c p. (t (fact w.db p)).runs w c (pre w.db p) }

-- A handler that ends with what it began with.
abbrev pub Stays : (C : Turn → Type 0) (P : Db → Type 0) {A : Type 0} → M A → Type 0
Stays C P m = Triple C P m (λ r db. P db)

module _ {C : Turn → Type 0} {P : Db → Type 0} {A : Type 0} where
  pub Stays-pure : (x : A) → Stays C P (pure x)
  Stays-pure x = Triple-pure x (λ db b. b)

  pub Stays-throw : (e : Failure) → Stays C P (throw {A = A} e)
  Stays-throw e = Triple-throw e (λ db b. b)

  pub Stays-bind :
      {B : Type 0} {m : M A} {f : A → M B}
      → Stays C P m
      → ((x : A) → Stays C P (f x))
      → Stays C P (m >>= f)
  Stays-bind h g = Triple-bind h g (λ e db b. b)

  pub Stays-if : (b : Bool) {m n : M A} → Stays C P m → Stays C P n → Stays C P (if b then m else n)
  Stays-if true h g = h
  Stays-if false h g = g

  pub Stays-try :
      {m : M A} {h : Failure → M A}
      → Stays C P m
      → ((e : Failure) → Stays C P (h e))
      → Stays C P (try_catch m h)
  Stays-try h g = Triple-try h g (λ x db b. b)
