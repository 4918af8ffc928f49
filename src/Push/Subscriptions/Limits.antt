-- ===== src/Push/Subscriptions/Limits.antt =====
-- How many devices a user keeps.
use chat_app_backend.Prelude.{
  ℕ, zero, suc, ◌+◌, ◌≤◌, ◌≡◌, refl, Bool, true, false, not, ◌&&◌, List, [], ◌∷◌, ◌==◌, take, drop,
  any, count, ==_refl, count-filterb, Bool-cases, inl, inr, arith, Option, or_true,
}
use chat_app_backend.Errors.{Result, ok, err}
use chat_app_backend.Mongo.{Mongo, IsDocumented}
use chat_app_backend.Server.{Db, Turn}
use chat_app_backend.Server.Triples.{Triple, Triple-attempt, Triple-pure, Triple-bind}
use chat_app_backend.Push.Crypto.{Crypto}
use chat_app_backend.Push.Jobs.{Device}
use chat_app_backend.Push.Subscriptions.{
  CreateSubscription, is_of, is_among, newer_device, max_devices_per_user, upsert_device,
  extra_devices, delete_devices, delete_extra, save,
}

-- Other requests may delete devices of the user and change them, but give the user none: whichever ids
-- are looked at, no more devices of the user have one of them.
pub record IsNoGain (user_id : ℕ) (t : Turn) : Type 0 where
  pub keeps :
      (p : ℕ → Bool) (db : Db)
      → count (λ d. p d.id && is_of user_id d) (t.others db).devices
        ≤ count (λ d. p d.id && is_of user_id d) db.devices

module _ {A : Type 0} where
  count-take : (p : A → Bool) (n : ℕ) (xs : List A) → count p (take n xs) ≤ n
  count-take p zero xs = omega arith
  count-take p (suc n) [] = omega arith
  count-take p (suc n) (x ∷ xs) = elim (Bool-cases (p x)) [
    | inl e ↦ rw e (omega (arith, count-take p n xs))
    | inr e ↦ rw e (omega (arith, count-take p n xs))
  ]

  count_split :
      (p : A → Bool) (n : ℕ) (xs : List A) → count p (take n xs) + count p (drop n xs) ≡ count p xs
  count_split p zero xs = omega arith
  count_split p (suc n) [] = omega arith
  count_split p (suc n) (x ∷ xs) = omega (arith, count_split p n xs)

  count-map_eq : (p q : A → Bool) → ((a : A) → p a ≡ q a) → (xs : List A) → count p xs ≡ count q xs
  count-map_eq p q h [] = refl
  count-map_eq p q h (x ∷ xs) = rw (h x, count-map_eq p q h xs) refl

and_comm : (a b : Bool) → (a && b) ≡ (b && a)
and_comm true true = refl
and_comm true false = refl
and_comm false true = refl
and_comm false false = refl

-- What is named among more rows is among them.
none_missing :
    (rows more : List Device)
    → ((d : Device) → is_among rows d ≡ true → is_among more d ≡ true)
    → count (λ d. not (is_among more d)) rows ≡ 0
none_missing [] more h = refl
none_missing (row ∷ rows) more h =
    rw (h row (rw (==_refl row.id) refl))
      (omega (arith, none_missing rows more (λ d e. h d (rw e (or_true (row.id == d.id))))))

module _ (mongo : Mongo) (crypto : Crypto) (manual : IsDocumented mongo) (user_id : ℕ) where
  -- What was found beyond ten covers all but ten of the devices.
  abbrev IsFew : Result (List Device) → Db → Type 0
  IsFew (ok extra) db =
      count (λ d. not (is_among extra d) && is_of user_id d) db.devices ≤ max_devices_per_user
  IsFew (err e) db = Unit

  abbrev pub IsLimited : Result (Unit {0}) → Db → Type 0
  IsLimited (ok _) db = count (is_of user_id) db.devices ≤ max_devices_per_user
  IsLimited (err e) db = Unit

  found-IsFew :
      (db : Db)
      → IsFew
          (ok (
            drop max_devices_per_user
              (mongo.find_sorted Device newer_device (is_of user_id) db.devices)))
          db
  found-IsFew db =
      let rows = mongo.find_sorted Device newer_device (is_of user_id) db.devices in
      let q = λ (d : Device). not (is_among (drop 10 rows) d) in
      omega (
        arith,
        count-take q 10 rows,
        count_split q 10 rows,
        none_missing (drop 10 rows) (drop 10 rows) (λ d e. e),
        manual.count-find_sorted Device newer_device (is_of user_id) q db.devices,
        count-map_eq (λ d. is_of user_id d && q d) (λ d. q d && is_of user_id d)
            (λ d. and_comm (is_of user_id d) (q d)) db.devices,
      )

  delete_devices-IsLimited :
      (rows : List Device)
      → Triple (IsNoGain user_id) (IsFew (ok rows)) (delete_devices mongo crypto rows) IsLimited
  unfolding delete_devices
  delete_devices-IsLimited rows =
      Triple-attempt _
        (λ t db c p. omega (arith, c.keeps (λ i. not (any (λ row. row.id == i) rows)) db, p))
        (λ now db p.
          rw
            (
              manual.delete_many_lem Device (is_among rows) db.devices,
              count-filterb (λ d. not (is_among rows d)) (is_of user_id) db.devices,
            )
            p)
        (λ db p. tt)

  -- When `save` returns, the user has at most ten devices. Before each access other requests may delete the
  -- user's devices and change them, keeping their ids, but give the user none; any access may fail.
  pub save-IsLimited :
      (new_id : ℕ) (iv : List ℕ) (input : CreateSubscription) (user_agent : Option (List ℕ))
      → Triple
          (IsNoGain user_id)
          (λ db. Unit {0})
          (save mongo crypto new_id iv user_id input user_agent)
          IsLimited
  unfolding save upsert_device extra_devices delete_extra
  save-IsLimited new_id iv input user_agent =
      Triple-bind {R = λ r db. Unit}
        (Triple-attempt _ (λ t db c p. tt) (λ now db p. tt) (λ db p. tt))
        (λ _.
          Triple-bind {R = IsFew}
            (Triple-attempt _ (λ t db c p. tt) (λ now db p. found-IsFew db) (λ db p. tt)) rest
            (λ e db p. tt))
        (λ e db p. tt)
    where
      rest :
          (extra : List Device)
          → Triple (IsNoGain user_id) (IsFew (ok extra)) (delete_extra mongo crypto extra) IsLimited
      rest [] = Triple-pure tt (λ db p. p)
      rest (row ∷ rows) = delete_devices-IsLimited (row ∷ rows)
