-- ===== src/Push/Sender.antt =====
-- src/modules/push/services/web-push.sender.ts. The package web-push and the push service behind it
-- are not part of the repository: what they answer is a parameter.
use chat_app_backend.Prelude.{ℕ, Option, none, some, ◌||◌, ◌==◌, leb, if◌then◌else◌}
use chat_app_backend.Server.{M, pure, access, try_catch}
use chat_app_backend.Push.Crypto.{WebPushSubscription}
use chat_app_backend.Push.Jobs.{PushPayload}

-- The service accepts the notification, or a WebPushError with its status, or any other error.
pub data Answer : Type 0 where
  accepted unreachable : Answer
  refused : ℕ → Answer

-- The messages of the errors are left out.
pub data SendResult : Type 0 where
  sent : SendResult
  gone rejected : ℕ → SendResult
  retry : Option ℕ → SendResult

unfoldable pub classify_status : ℕ → SendResult
classify_status status_code =
    if status_code == 404 || status_code == 410
    then gone status_code
    else (if status_code == 429 || leb 500 status_code
        then retry (some status_code)
        else rejected status_code)

unfoldable pub classify : Answer → SendResult
unfolding classify_status
classify accepted = sent
classify (refused status_code) = classify_status status_code
classify unreachable = retry none

-- `answers` says what comes back for a notification at a time; the call itself may fail like any other.
unfoldable pub send_web_push :
    (WebPushSubscription → PushPayload → ℕ → Answer)
    → WebPushSubscription
    → PushPayload
    → M SendResult
send_web_push answers subscription payload =
    try_catch (access λ now db. (db, classify (answers subscription payload now)))
      (λ error. pure (retry none))
