-- ===== src/Core/Error.antt =====
-- crates/core/src/error.rs, and crates/gateway/src/error.rs on top of it. A call returns an
-- `Outcome`: besides `Ok` and `Err` it may panic, which aborts the process in the release profile.
use mcp_oxide.Text.{format}
use mcp_oxide.Prelude.{ℕ, String, [], ◌∷◌, ◌≡◌, refl, ◌⊎◌, inl, inr}

pub data Error : Type 0 where
  unauthenticated forbidden not_found conflict invalid_request : String → Error
  upstream_unavailable upstream_timeout : String → Error
  rate_limited : Error
  internal : String → Error

-- the `#[error("…")]` formats, that is `Error::to_string`
unfoldable pub to_string : Error → String
to_string (unauthenticated m) = format ("unauthenticated: " ∷ m ∷ [])
to_string (forbidden m) = format ("forbidden: " ∷ m ∷ [])
to_string (not_found m) = format ("not found: " ∷ m ∷ [])
to_string (conflict m) = format ("conflict: " ∷ m ∷ [])
to_string (invalid_request m) = format ("invalid request: " ∷ m ∷ [])
to_string (upstream_unavailable m) = format ("upstream unavailable: " ∷ m ∷ [])
to_string (upstream_timeout m) = format ("upstream timeout: " ∷ m ∷ [])
to_string rate_limited = "rate limited"
to_string (internal m) = format ("internal: " ∷ m ∷ [])

-- `std::result::Result`
pub data Result (E A : Type 0) : Type 0 where
  ok : A → Result E A
  err : E → Result E A

pub data AppError : Type 0 where
  core : Error → AppError
  internal_error : String → AppError

unfoldable pub app_to_string : AppError → String
unfolding to_string
app_to_string (core e) = to_string e
app_to_string (internal_error m) = format ("internal: " ∷ m ∷ [])

-- the status code and the error code of the `match` in `AppError::into_response`
unfoldable pub status_and_code : AppError → ℕ × String
status_and_code (core (unauthenticated _)) = (401, "unauthenticated")
status_and_code (core (forbidden _)) = (403, "forbidden")
status_and_code (core (not_found _)) = (404, "not_found")
status_and_code (core (conflict _)) = (409, "conflict")
status_and_code (core (invalid_request _)) = (400, "invalid_params")
status_and_code (core rate_limited) = (429, "rate_limited")
status_and_code (core (upstream_unavailable _)) = (502, "upstream_unavailable")
status_and_code (core (upstream_timeout _)) = (504, "upstream_timeout")
status_and_code (core (internal _)) = (500, "internal_error")
status_and_code (internal_error _) = (500, "internal_error")

-- what the response says: status, `error` and `message` of the JSON body
unfoldable pub into_response : AppError → ℕ × String × String
unfolding status_and_code app_to_string
into_response e = ((status_and_code e).0, (status_and_code e).1, app_to_string e)

-- what a handler comes back with
pub data Outcome (A : Type 0) : Type 0 where
  done : A → Outcome A
  fail : AppError → Outcome A
  panic : Outcome A

pub Result-cases :
    {E A : Type 0} (r : Result E A) → ((e : E) × (r ≡ err e)) ⊎ ((a : A) × (r ≡ ok a))
Result-cases (ok a) = inr (a, refl)
Result-cases (err e) = inl (e, refl)
