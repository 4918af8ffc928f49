-- ===== src/Tests/Pushing.antt =====
-- A message of the customer 20 to agent 7, who has one browser.
use chat_app_backend.Prelude.{
  ℕ, arith, ◌≡◌, refl, true, false, Bool, Option, none, some, List, [], ◌∷◌, ◌++◌, take, drop, any,
  length, if◌then◌else◌, inl, map, one_if, ◌≤◌, ◌==◌, count-map, ◌&&◌, ◌+◌, ◌*◌, ◌<◌, not, ltb,
}
use Prim.Native.Nat.{◌/◌, ◌%◌}
use chat_app_backend.Errors.{ok}
use chat_app_backend.Mongo.Memory.{memory, memory-IsDocumented}
use chat_app_backend.Server.{Db, World, Turn, quiet, access}
use chat_app_backend.Server.Triples.{Ends}
use chat_app_backend.Push.Crypto.{
  Crypto, IsCrypto, IsBytes, well_formed, is_low, is_high, WebPushSubscription, encrypt, decrypt,
  decrypt-encrypt,
}
use chat_app_backend.Push.Jobs.{Device, MessageJob, PushPayload, notify, deliver}
use chat_app_backend.Push.Sender.{Answer, accepted}
use chat_app_backend.Push.Subscriptions.{
  CreateSubscription, StoredSubscription, is_of, save, remove, parse, stored, stored_or_throw,
  unwrap, unwrap_each, list_for_user,
}
use chat_app_backend.Push.Subscriptions.Limits.{IsNoGain, IsLimited, save-IsLimited}
use chat_app_backend.Push.Subscriptions.Owner.{Removed, remove-Removed}
use chat_app_backend.Push.Queue.{
  BullMq, IsBullMq, same_job, enqueue_for_message, add_deliveries, run_job, recipient_of, fan_out,
}
use chat_app_backend.Chat.Conversations
use chat_app_backend.Push.Queue.Unique.{Noticed, Delivered, queue-IsUnique}
use chat_app_backend.Push.Queue.Tidy.{IsTidy}
use chat_app_backend.Push.Queue.Keys.{IsUnique}
use chat_app_backend.Push.Queue.Due.{IsIdle, IsDue, Extended, fan_out-Extended}
use chat_app_backend.Push.Queue.Told.{Told, fan_out-Told}
use chat_app_backend.Tests.Samples.{office, thread}

abbrev sixteen : List ℕ
sixteen = 0 ∷ 0 ∷ 0 ∷ 0 ∷ 0 ∷ 0 ∷ 0 ∷ 0 ∷ 0 ∷ 0 ∷ 0 ∷ 0 ∷ 0 ∷ 0 ∷ 0 ∷ 0 ∷ []

abbrev twelve : List ℕ
twelve = 1 ∷ 2 ∷ 3 ∷ 4 ∷ 5 ∷ 6 ∷ 7 ∷ 8 ∷ 9 ∷ 10 ∷ 11 ∷ 12 ∷ []

-- JSON as a list that starts with two lengths.
abbrev parsed : List ℕ → Option WebPushSubscription
parsed (m ∷ n ∷ text) =
    some (record {
      endpoint = take m text;
      p256dh = take n (drop m text);
      auth = drop n (drop m text);
    })
parsed _ = none

abbrev printed : WebPushSubscription → List ℕ
printed s = length s.endpoint ∷ length s.p256dh ∷ (s.endpoint ++ (s.p256dh ++ s.auth))

-- Two bytes for each unit.
abbrev encoded : List ℕ → List ℕ
encoded [] = []
encoded (u ∷ text) = (u / 256) ∷ (u % 256) ∷ encoded text

abbrev decoded : List ℕ → List ℕ
decoded (m ∷ n ∷ bytes) = (m * 256 + n) ∷ decoded bytes
decoded _ = []

both : (b c : Bool) → (b && c) ≡ true → (b ≡ true) × (c ≡ true)
both true true h = (refl, refl)
both true false h = cc
both false c h = cc

decoded-encoded : (text : List ℕ) → decoded (encoded text) ≡ text
decoded-encoded [] = refl
decoded-encoded (u ∷ text) = rw (halves u, decoded-encoded text) refl
  where
    halves : (u : ℕ) → u / 256 * 256 + u % 256 ≡ u
    halves u = omega arith

encoded-IsBytes : (b : Bool) (text : List ℕ) → well_formed b text ≡ true → IsBytes (encoded text)
encoded-IsBytes b [] h = tt
encoded-IsBytes true (u ∷ text) h =
    let (k, rest) = both (is_low u) (well_formed false text) h in
    let low : u < 65536 = ground (arith, k) in
    (omega (arith, low), (omega arith, encoded-IsBytes false text rest))
encoded-IsBytes false (u ∷ text) h =
    let (k, rest) = both (ltb u 65536 && not (is_low u)) (well_formed (is_high u) text) h in
    let low : u < 65536 = ground (arith, k) in
    (omega (arith, low), (omega arith, encoded-IsBytes (is_high u) text rest))

-- A cipher that hides nothing.
abbrev open_box : Crypto
open_box = record {
  to_utf8 = encoded;
  from_utf8 = decoded;
  to_base64 = λ bytes. bytes;
  from_base64 = λ text. text;
  seal = λ iv plain. (plain, sixteen);
  open_sealed = λ iv tag ciphertext. some ciphertext;
  to_json = printed;
  of_json = parsed;
  sha256 = λ bytes. length bytes;
}

sixteen-IsBytes : IsBytes sixteen
sixteen-IsBytes = (
  omega arith,
  (
    omega arith,
    (
      omega arith,
      (
        omega arith,
        (
          omega arith,
          (
            omega arith,
            (
              omega arith,
              (
                omega arith,
                (
                  omega arith,
                  (
                    omega arith,
                    (
                      omega arith,
                      (omega arith, (omega arith, (omega arith, (omega arith, (omega arith, tt))))),
                    ),
                  ),
                ),
              ),
            ),
          ),
        ),
      ),
    ),
  ),
)

twelve-IsBytes : IsBytes twelve
twelve-IsBytes = (
  omega arith,
  (
    omega arith,
    (
      omega arith,
      (
        omega arith,
        (
          omega arith,
          (
            omega arith,
            (
              omega arith,
              (omega arith, (omega arith, (omega arith, (omega arith, (omega arith, tt))))),
            ),
          ),
        ),
      ),
    ),
  ),
)

open_box-IsCrypto : IsCrypto open_box
open_box-IsCrypto = record {
  from_utf8-to_utf8 = λ text h. decoded-encoded text;
  to_utf8-IsBytes = λ text h. encoded-IsBytes false text h;
  from_base64-to_base64 = λ bytes h. refl;
  seal-IsBytes = λ iv plain b h p. (p, sixteen-IsBytes);
  length-tag = λ iv plain b h p. refl;
  open_sealed-seal = λ iv plain b h p. refl;
}

-- The letters `hi` and a smile, which is two units.
decrypt-encrypt_example :
    decrypt open_box (encrypt open_box twelve (104 ∷ 105 ∷ 55357 ∷ 56832 ∷ []))
    ≡ some (104 ∷ 105 ∷ 55357 ∷ 56832 ∷ [])
decrypt-encrypt_example =
    decrypt-encrypt open_box open_box-IsCrypto twelve (104 ∷ 105 ∷ 55357 ∷ 56832 ∷ [])
      twelve-IsBytes refl refl

abbrev new_only : BullMq
new_only = record { add = λ job queue. if any (same_job job) queue then queue else job ∷ queue }

new_only-IsBullMq : IsBullMq new_only
new_only-IsBullMq = record { add_lem = λ job queue. refl }

abbrev subscription : WebPushSubscription
subscription = record { endpoint = 1 ∷ []; p256dh = 2 ∷ []; auth = 3 ∷ [] }

abbrev browser : ℕ → ℕ → Device
browser id user_id = record {
  id = id;
  user_id = user_id;
  endpoint_hash = id;
  encrypted_subscription = twelve ++ (sixteen ++ encoded (printed subscription));
  expires_at = none;
  user_agent = none;
  last_success_at = none;
  failure_count = 0;
  updated_at = id;
}

abbrev equipped : Db
equipped = record office { devices = browser 1 7 ∷ browser 2 20 ∷ [] }

abbrev question : MessageJob
question = record {
  conversation_id = 1;
  message_id = 60;
  sender_id = 20;
  sender_name = 20;
  sender_is_customer = true;
  text = 104 ∷ [];
}

-- An access takes time, and another fails.
abbrev slow : Turn
slow = record { others = λ db. db; elapsed = 10; fails = false }

abbrev broken : Turn
broken = record { others = λ db. db; elapsed = 10; fails = true }

abbrev resubscribe : CreateSubscription
resubscribe = record { endpoint = 1 ∷ []; expiration_time = none; p256dh = 2 ∷ []; auth = 3 ∷ [] }

-- Another process marks a failure on every device.
abbrev marked : Device → Device
marked d = record d { failure_count = d.failure_count + 1 }

abbrev marking : Turn
marking = record {
  others = λ db. record db { devices = map marked db.devices };
  elapsed = 10;
  fails = false;
}

marking-IsNoGain : IsNoGain 7 marking
marking-IsNoGain = record {
  keeps = λ p db. omega (arith, count-map (λ (d : Device). p d.id && is_of 7 d) marked db.devices);
}

save-IsLimited_example : Ends (IsNoGain 7) (IsLimited memory open_box memory-IsDocumented 7) (
    save memory open_box 9 twelve 7 resubscribe none
      (record (quiet equipped 5) { turns = marking ∷ [] }))
save-IsLimited_example =
    (save-IsLimited memory open_box memory-IsDocumented 7 9 twelve resubscribe none).runs
      (record (quiet equipped 5) { turns = marking ∷ [] }) (marking-IsNoGain, tt) tt

remove-Removed_example :
    (answer : Bool) × (((remove memory open_box 7 (1 ∷ []) (quiet equipped 5)).0 ≡ ok answer)
      × Removed open_box 7
          (1 ∷ [])
          answer
          equipped.devices
          (remove memory open_box 7 (1 ∷ []) (quiet equipped 5)).1.db.devices)
remove-Removed_example = remove-Removed memory open_box memory-IsDocumented 7 (1 ∷ []) equipped 5

abbrev accepting : WebPushSubscription → PushPayload → ℕ → Answer
accepting s p now = accepted

slow-IsTidy : IsTidy slow
slow-IsTidy = record { keeps = λ db u. u }

-- The fan-out is repeated after it was queued.
abbrev queued : Db
queued = record equipped { queue = notify question 1500 ∷ [] }

abbrev running : World
running = record (quiet queued 5) { turns = slow ∷ slow ∷ [] }

one_if-bound : (b : Bool) → one_if b ≤ 1
one_if-bound b = ground arith

queued-IsUnique : IsUnique queued.queue
queued-IsUnique = record {
  notices = λ m. omega (arith, one_if-bound (60 == m));
  deliveries = λ d m. omega arith;
}

abbrev saved : ℕ → StoredSubscription
saved id = record { id = id; user_id = 7; subscription = subscription; expires_at = none }

abbrev two_browsers : List StoredSubscription
two_browsers = saved 1 ∷ saved 3 ∷ []

queue-IsUnique_example :
    Ends IsTidy
      (Noticed memory open_box new_only accepting true new_only-IsBullMq true question)
      (enqueue_for_message memory open_box new_only accepting true question running)
    × (Ends IsTidy
          (Delivered memory open_box new_only accepting true new_only-IsBullMq true 60 two_browsers)
          (add_deliveries memory open_box new_only accepting true question two_browsers running)
        × Ends IsTidy
            (λ r db. IsUnique db.queue)
            (run_job memory open_box new_only accepting true (notify question 1500) running))
queue-IsUnique_example = (
  (queue-IsUnique memory open_box new_only accepting true new_only-IsBullMq question two_browsers
        (notify question 1500)).0.runs
      running (slow-IsTidy, (slow-IsTidy, tt)) queued-IsUnique,
  (
    (queue-IsUnique memory open_box new_only accepting true new_only-IsBullMq question two_browsers
          (notify question 1500)).1.0.runs
        running (slow-IsTidy, (slow-IsTidy, tt)) queued-IsUnique,
    (queue-IsUnique memory open_box new_only accepting true new_only-IsBullMq question two_browsers
          (notify question 1500)).1.1.runs
        running (slow-IsTidy, (slow-IsTidy, tt)) queued-IsUnique,
  ),
)

fan_out-Extended_example :
    Ends IsIdle
      (λ r db. Extended memory open_box new_only accepting question queued db)
      (fan_out memory open_box new_only accepting true question running)
fan_out-Extended_example =
    (fan_out-Extended memory open_box new_only accepting question queued memory-IsDocumented
        new_only-IsBullMq).runs
      running (record { keeps = λ db. refl }, (record { keeps = λ db. refl }, tt)) refl

-- Agent 7 has the thread and one browser, and is not looking.
browser-IsDue : IsDue memory open_box new_only accepting question queued 1
browser-IsDue = record {
  thread = thread 1 20 (some 7);
  recipient = 7;
  stored_thread = refl;
  other_side = inl (refl, refl);
  not_sender = omega arith;
  not_looking = tt;
  is_own = refl;
}

fan_out-Told_example :
    Ends IsIdle
      (Told memory open_box new_only accepting question queued memory-IsDocumented new_only-IsBullMq
        1)
      (fan_out memory open_box new_only accepting true question running)
fan_out-Told_example =
    (fan_out-Told memory open_box new_only accepting question queued memory-IsDocumented
        new_only-IsBullMq 1 browser-IsDue).runs
      running (record { keeps = λ db. refl }, (record { keeps = λ db. refl }, tt)) refl

-- One device of the agent is notified.
fan_out_run :
    (fan_out memory open_box new_only accepting true question (quiet queued 5)).1.db.queue
    ≡ deliver 1 (record { title = 20; body = 104 ∷ []; conversation_id = 1; message_id = 60 })
      ∷ notify question 1500
      ∷ []
unfolding fan_out access list_for_user Conversations.find_by_id unwrap unwrap_each stored_or_throw
    stored parse decrypt recipient_of
fan_out_run = refl
