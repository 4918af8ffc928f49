-- ===== src/Push/Subscriptions.antt =====
-- src/modules/push/services/push-subscriptions.service.ts, method by method.
pub mod Limits
pub mod Owner
use mathlib.Core.Option
use chat_app_backend.Prelude.{
  ℕ, ◌+◌, Bool, ◌&&◌, Option, none, some, List, [], ◌∷◌, map, any, take, drop, leb, ◌==◌,
  if◌then◌else◌,
}
use chat_app_backend.Errors.{thrown}
use chat_app_backend.Mongo.{Mongo}
use chat_app_backend.Server.{Db, M, pure, throw, ◌>>=◌, ◌>>◌, access}
use chat_app_backend.Push.Crypto.{Crypto, WebPushSubscription, encrypt, decrypt, hash_endpoint}
use chat_app_backend.Push.Jobs.{Device}

pub record CreateSubscription : Type 0 where
  pub endpoint : List ℕ
  pub expiration_time : Option ℕ
  pub p256dh : List ℕ
  pub auth : List ℕ

pub record StoredSubscription : Type 0 where
  pub id : ℕ
  pub user_id : ℕ
  pub subscription : WebPushSubscription
  pub expires_at : Option ℕ

abbrev pub max_devices_per_user : ℕ
max_devices_per_user = 10

-- `input.expirationTime ? new Date(input.expirationTime) : null`
abbrev pub date_of : Option ℕ → Option ℕ
date_of none = none
date_of (some time) = if time == 0 then none else some time

-- `{ updatedAt: -1 }`
abbrev pub newer_device : Device → Device → Bool
newer_device d e = leb e.updated_at d.updated_at

abbrev pub is_of : ℕ → Device → Bool
is_of user_id d = d.user_id == user_id

abbrev pub is_among : List Device → Device → Bool
is_among rows d = any (λ row. row.id == d.id) rows

module _ (mongo : Mongo) (crypto : Crypto) where
  unfoldable pub stored : Device → WebPushSubscription → StoredSubscription
  stored row subscription = record {
    id = row.id;
    user_id = row.user_id;
    subscription = subscription;
    expires_at = row.expires_at;
  }

  unfoldable pub parse : Option (List ℕ) → Option WebPushSubscription
  parse none = none
  parse (some text) = crypto.of_json text

  unfoldable pub stored_or_throw : Device → Option WebPushSubscription → M StoredSubscription
  stored_or_throw row none = throw thrown
  stored_or_throw row (some subscription) = pure (stored row subscription)

  -- A row that cannot be decrypted or parsed throws.
  unfoldable pub unwrap : Device → M StoredSubscription
  unwrap row = stored_or_throw row (parse (decrypt crypto row.encrypted_subscription))

  unfoldable pub unwrap_each : List Device → M (List StoredSubscription)
  unfolding unwrap
  unwrap_each [] = pure []
  unwrap_each (row ∷ rows) = do s ← unwrap row; ss ← unwrap_each rows; pure (s ∷ ss)

  -- The `$set` of `save`, with the timestamp that mongoose adds.
  unfoldable pub refreshed : List ℕ → ℕ → CreateSubscription → Option (List ℕ) → ℕ → Device → Device
  refreshed iv user_id input user_agent now d = record d {
    user_id = user_id;
    encrypted_subscription = encrypt crypto iv (
        crypto.to_json
          (record { endpoint = input.endpoint; p256dh = input.p256dh; auth = input.auth }));
    expires_at = date_of input.expiration_time;
    user_agent = Option.map (take 300) user_agent;
    failure_count = 0;
    updated_at = now;
  }

  -- A row of the defaults, for the upsert that inserts.
  unfoldable pub blank : ℕ → ℕ → Device
  blank id endpoint_hash = record {
    id = id;
    user_id = 0;
    endpoint_hash = endpoint_hash;
    encrypted_subscription = [];
    expires_at = none;
    user_agent = none;
    last_success_at = none;
    failure_count = 0;
    updated_at = 0;
  }

  unfoldable pub upsert_device :
      ℕ → List ℕ → ℕ → CreateSubscription → Option (List ℕ) → M (Unit {0})
  unfolding refreshed blank
  upsert_device new_id iv user_id input user_agent = access λ now db.
      let hash = hash_endpoint crypto input.endpoint in
      let refresh = refreshed iv user_id input user_agent now in
      (
        record db {
          devices =
              mongo.upsert_one Device (λ d. d.endpoint_hash == hash) refresh
                (refresh (blank new_id hash)) db.devices;
        },
        tt,
      )

  unfoldable pub extra_devices : ℕ → M (List Device)
  extra_devices user_id = access λ now db. (
    db,
    drop max_devices_per_user (mongo.find_sorted Device newer_device (is_of user_id) db.devices),
  )

  unfoldable pub delete_devices : List Device → M (Unit {0})
  delete_devices rows =
      access
        λ now db. (record db { devices = mongo.delete_many Device (is_among rows) db.devices }, tt)

  unfoldable pub delete_extra : List Device → M (Unit {0})
  unfolding delete_devices
  delete_extra [] = pure tt
  delete_extra (row ∷ rows) = delete_devices (row ∷ rows)

  -- `new_id` and `iv` are what the driver and `randomBytes` make up.
  unfoldable pub save : ℕ → List ℕ → ℕ → CreateSubscription → Option (List ℕ) → M (Unit {0})
  unfolding upsert_device extra_devices delete_extra
  save new_id iv user_id input user_agent = do
    upsert_device new_id iv user_id input user_agent
    extra ← extra_devices user_id
    delete_extra extra

  unfoldable pub remove : ℕ → List ℕ → M Bool
  remove user_id endpoint = access λ now db.
      let hash = hash_endpoint crypto endpoint in
      let r =
        mongo.delete_one Device (λ d. is_of user_id d && d.endpoint_hash == hash) db.devices in
      (record db { devices = r.0 }, r.1)

  unfoldable pub list_for_user : ℕ → M (List StoredSubscription)
  unfolding unwrap_each
  list_for_user user_id = do
    rows ← access λ now db. (db, mongo.find Device (is_of user_id) db.devices)
    unwrap_each rows

  unfoldable pub unwrap_found : Option Device → M (Option StoredSubscription)
  unfolding unwrap
  unwrap_found none = pure none
  unwrap_found (some row) = unwrap row >>= λ s. pure (some s)

  unfoldable pub find_by_id : ℕ → M (Option StoredSubscription)
  unfolding unwrap_found
  find_by_id id = do
    row ← access λ now db. (db, mongo.find_one Device (λ d. d.id == id) db.devices)
    unwrap_found row

  unfoldable pub delete_by_id : ℕ → M (Unit {0})
  delete_by_id id = access λ now db.
      (record db { devices = (mongo.delete_one Device (λ d. d.id == id) db.devices).0 }, tt)

  unfoldable pub change_device : ℕ → (ℕ → Device → Device) → M (Unit {0})
  change_device id u = access λ now db.
      (record db { devices = (mongo.update_one Device (λ d. d.id == id) (u now) db.devices).0 }, tt)

  unfoldable pub mark_success : ℕ → M (Unit {0})
  unfolding change_device
  mark_success id =
      change_device id
        λ now d. record d { last_success_at = some now; failure_count = 0; updated_at = now }

  unfoldable pub mark_failure : ℕ → M (Unit {0})
  unfolding change_device
  mark_failure id =
      change_device id λ now d. record d { failure_count = d.failure_count + 1; updated_at = now }
