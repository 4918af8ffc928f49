-- ===== src/Push/Subscriptions/Owner.antt =====
-- Who may remove a device.
use chat_app_backend.Prelude.{
  ℕ, ◌+◌, ◌≡◌, ◌⊎◌, refl, ap, Bool, true, false, ◌&&◌, List, ◌∷◌, count, count-append, one_if, ◌==◌,
  inl, inr, arith,
}
use chat_app_backend.Errors.{ok}
use chat_app_backend.Mongo.{Mongo, IsDocumented, Deletes, kept, deleted}
use chat_app_backend.Server.{Db, quiet, access}
use chat_app_backend.Push.Crypto.{Crypto, hash_endpoint}
use chat_app_backend.Push.Jobs.{Device}
use chat_app_backend.Push.Subscriptions.{is_of, remove}

-- By how much a count goes down when one document that matches is deleted.
count-Deletes :
    {D : Type 0} {p : D → Bool} {ds after : List D} {r : Bool}
    → Deletes p ds after r
    → ((r ≡ false) × ((after ≡ ds) × (count p ds ≡ 0)))
      ⊎ ((r ≡ true)
          × ((d : D) × ((p d ≡ true)
                × ((q : D → Bool) → count q ds ≡ one_if (q d) + count q after))))
count-Deletes (kept n a e) = inl (e, (a, n))
count-Deletes (deleted xs ys d s m a e) =
    inr (
      e,
      (d, (m, λ q. rw (s, a) (omega (arith, count-append q xs (d ∷ ys), count-append q xs ys)))),
    )

abbrev pub is_mine : Crypto → ℕ → List ℕ → Device → Bool
is_mine crypto user_id endpoint d =
    is_of user_id d && d.endpoint_hash == hash_endpoint crypto endpoint

-- What `remove` answered, with the devices before and after it.
pub record Removed (crypto : Crypto) (user_id : ℕ) (endpoint : List ℕ) (answer : Bool)
    (before after : List Device) : Type 0 where
  pub others_kept :
      (q : Device → Bool)
      → ((d : Device) → is_of user_id d ≡ true → q d ≡ false)
      → count q after ≡ count q before
  pub one_less :
      count (is_mine crypto user_id endpoint) before
      ≡ one_if answer + count (is_mine crypto user_id endpoint) after
  pub nothing_there : answer ≡ false → count (is_mine crypto user_id endpoint) before ≡ 0

both_true : (a b : Bool) → (a && b) ≡ true → a ≡ true
both_true true b h = refl
both_true false b h = h

-- With nobody in between, `remove` deletes one device of the user that has this endpoint and answers
-- true, or answers false where the user has none; every device of another user is kept.
pub remove-Removed :
    (mongo : Mongo) (crypto : Crypto)
    → IsDocumented mongo
    → (user_id : ℕ) (endpoint : List ℕ) (db : Db) (now : ℕ)
    → (answer : Bool) × (((remove mongo crypto user_id endpoint (quiet db now)).0 ≡ ok answer)
        × Removed crypto user_id endpoint answer db.devices
            (remove mongo crypto user_id endpoint (quiet db now)).1.db.devices)
unfolding remove access
remove-Removed mongo crypto manual user_id endpoint db now =
    let mine = is_mine crypto user_id endpoint in
    let r = mongo.delete_one Device mine db.devices in
    (r.1, (refl, gone r.0 r.1 (count-Deletes (manual.delete_one-Deletes Device mine db.devices))))
  where
    gone :
        (after : List Device) (b : Bool)
        → ((b ≡ false)
            × ((after ≡ db.devices) × (count (is_mine crypto user_id endpoint) db.devices ≡ 0)))
          ⊎ ((b ≡ true)
              × ((d : Device) × ((is_mine crypto user_id endpoint d ≡ true)
                    × ((q : Device → Bool) → count q db.devices ≡ one_if (q d) + count q after))))
        → Removed crypto user_id endpoint b db.devices after
    gone after b (inl (e, (a, n))) = record {
      others_kept = λ q h. ap (count q) a;
      one_less = rw (e, a) (omega arith);
      nothing_there = λ f. n;
    }
    gone after b (inr (e, (d, (m, k)))) = record {
      others_kept = λ q h. omega (arith, k q, ap one_if (h d (both_true (is_of user_id d) _ m)));
      one_less = rw e (omega (arith, k (is_mine crypto user_id endpoint), ap one_if m));
      nothing_there = λ f. cc;
    }
