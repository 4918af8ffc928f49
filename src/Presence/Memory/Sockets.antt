-- ===== src/Presence/Memory/Sockets.antt =====
-- The store keeps exactly the sockets that were added and not removed since.
use chat_app_backend.Prelude.{
  or_false, and_true, any-snoc, any-filterb, ℕ, ◌≡◌, refl, ap, sym, ◌∙◌, Bool, true, false, not,
  ◌&&◌, ◌||◌, Option, none, some, List, [], ◌∷◌, ◌==◌, any, inl, inr, Bool-cases, eq_of_==,
}
use chat_app_backend.Presence.Memory.{
  MemoryStore, or_empty, add_to, removed_from, is_empty, add_socket, remove_socket, settled, settle,
  snapshot, fresh_store,
}

pub data StoreCall : Type 0 where
  adds : (user_id socket_id : ℕ) → StoreCall
  removes : (user_id socket_id : ℕ) → StoreCall
  settles : (now user_id : ℕ) → StoreCall

abbrev pub perform : StoreCall → MemoryStore → MemoryStore
perform (adds u s) store = (add_socket u s store).0
perform (removes u s) store = remove_socket u s store
perform (settles now u) store = (settle now u store).0

abbrev pub perform_all : List StoreCall → MemoryStore → MemoryStore
perform_all [] store = store
perform_all (c ∷ calls) store = perform_all calls (perform c store)

-- The specification: which sockets of which users are connected.
abbrev pub connect : StoreCall → (ℕ → ℕ → Bool) → ℕ → ℕ → Bool
connect (adds u s) has v t = has v t || (v == u && t == s)
connect (removes u s) has v t = has v t && not (v == u && t == s)
connect (settles now u) has v t = has v t

abbrev pub connect_all : List StoreCall → (ℕ → ℕ → Bool) → ℕ → ℕ → Bool
connect_all [] has = has
connect_all (c ∷ calls) has = connect_all calls (connect c has)

abbrev pub holds : MemoryStore → ℕ → ℕ → Bool
holds store v t = any (λ s. s == t) (or_empty (store.sockets v))

any-add_to :
    (t s : ℕ) (set : List ℕ)
    → any (λ x. x == t) (add_to s set) ≡ (any (λ x. x == t) set || (t == s))
any-add_to t s set = elim (Bool-cases (any (λ x. x == s) set)) [
  | inr e ↦ rw e (any-snoc t s set)
  | inl e ↦ elim (Bool-cases (t == s)) [
    | inr f ↦ rw (e, f) (sym (or_false (any (λ x. x == t) set)))
    | inl f ↦ rw (eq_of_== t s f, e) e
  ]
]

any-removed_from :
    (t s : ℕ) (o : Option (List ℕ))
    → any (λ x. x == t) (or_empty (removed_from s o))
      ≡ (any (λ x. x == t) (or_empty o) && not (t == s))
any-removed_from t s none = refl
any-removed_from t s (some set) = any-filterb t s set

holds-settled :
    (now u : ℕ) (store : MemoryStore) (o : Option (List ℕ)) (v t : ℕ)
    → store.sockets u ≡ o
    → holds (settled now u store o).0 v t ≡ holds store v t
unfolding settled
holds-settled now u store none v t e = refl
holds-settled now u store (some (s ∷ set)) v t e = refl
holds-settled now u store (some []) v t e = elim (Bool-cases (v == u)) [
  | inl f ↦ rw f (rw (eq_of_== v u f, e) refl)
  | inr f ↦ rw f refl
]

holds-perform :
    (c : StoreCall) (store : MemoryStore) (v t : ℕ)
    → holds (perform c store) v t ≡ connect c (holds store) v t
unfolding add_socket remove_socket settle
holds-perform (adds u s) store v t = elim (Bool-cases (v == u)) [
  | inl e ↦ rw e (any-add_to t s (or_empty (store.sockets u)) ∙ rw (eq_of_== v u e) refl)
  | inr e ↦ rw e (sym (or_false (holds store v t)))
]
holds-perform (removes u s) store v t = elim (Bool-cases (v == u)) [
  | inl e ↦ rw e (any-removed_from t s (store.sockets u) ∙ rw (eq_of_== v u e) refl)
  | inr e ↦ rw e (sym (and_true (holds store v t)))
]
holds-perform (settles now u) store v t = holds-settled now u store (store.sockets u) v t refl

holds-perform_all :
    (calls : List StoreCall) (store : MemoryStore) (v t : ℕ)
    → holds (perform_all calls store) v t ≡ connect_all calls (holds store) v t
holds-perform_all [] store v t = refl
holds-perform_all (c ∷ calls) store v t =
    holds-perform_all calls (perform c store) v t
    ∙ ap (λ has. connect_all calls has v t) (λ i x y. holds-perform c store x y i)

any-nonempty : (t : ℕ) (set : List ℕ) → any (λ s. s == t) set ≡ true → not (is_empty set) ≡ true
any-nonempty t [] h = cc
any-nonempty t (s ∷ set) h = refl

-- After any calls on a new store, in any order, a socket is held for a user exactly when it was added for
-- that user and not removed since, whatever was settled; and a user with such a socket is online.
pub holds-connect_all :
    (calls : List StoreCall) (v t : ℕ)
    → (holds (perform_all calls fresh_store) v t ≡ connect_all calls (λ x y. false) v t)
      × (connect_all calls (λ x y. false) v t ≡ true
          → (snapshot (perform_all calls fresh_store) v).online ≡ true)
unfolding snapshot
holds-connect_all calls v t =
    let same = holds-perform_all calls fresh_store v t in
    (same, λ h. any-nonempty t (or_empty ((perform_all calls fresh_store).sockets v)) (same ∙ h))
