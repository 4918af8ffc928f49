-- ===== src/Errors.antt =====
-- src/common/errors/http-error.ts, and the values that a handler can throw.
use Prim.Native.String.{String}
use chat_app_backend.Prelude.{ℕ, ◌≢◌}

pub record HttpError : Type 0 where
  pub status_code : ℕ
  pub code : String
  pub message : String

abbrev pub bad_request : String → String → HttpError
bad_request code message = record { status_code = 400; code = code; message = message }

abbrev pub unauthorized : HttpError
unauthorized = record {
  status_code = 401;
  code = "AUTHENTICATION_REQUIRED";
  message = "Authentication required";
}

abbrev pub forbidden : String → HttpError
forbidden message = record { status_code = 403; code = "FORBIDDEN"; message = message }

abbrev pub not_found : String → String → HttpError
not_found code message = record { status_code = 404; code = code; message = message }

abbrev pub conflict : String → String → HttpError
conflict code message = record { status_code = 409; code = code; message = message }

-- What `throw` can carry: an HttpError, MongoDB's duplicate-key error, any other failure of the
-- database or the network, BullMQ's UnrecoverableError, or another error.
pub data Failure : Type 0 where
  http : HttpError → Failure
  duplicate_key unavailable unrecoverable thrown : Failure

pub data Result {ℓ} (A : Type ℓ) : Type ℓ where
  ok : A → Result A
  err : Failure → Result A

pub err≢ok : {A : Type 0} {e : Failure} {a : A} → err e ≢ ok a
err≢ok e = cc
