-- ===== src/Gateway/Handler.antt =====
-- A handler as an action: it runs on the `World` and ends in a value, in an error that `?` passes
-- on, or in a panic. What was written before it ended stays written.
pub mod Inversion
use mcp_oxide.Prelude.{String, Option, none, some, ◌∷◌}
use mcp_oxide.Core.Error.{Error, Result, ok, err, AppError, core, Outcome, done, fail, panic}
use mcp_oxide.Core.Model.{DateTime}
use mcp_oxide.Core.Audit.{AuditRecord}
use mcp_oxide.Gateway.State.{World}

abbrev pub Handler : Type 0 → Type 0 → Type 0 → Type 0
Handler M D A = World M D → Outcome A × World M D

-- What a request brings from outside the program: the clock, the generator of request ids, the
-- `http` crate's conversions of header values (of type `V`) and `chrono`'s print of a time.
pub record Host (V : Type 0) : Type 0 where
  pub now : DateTime
  pub timestamp : String
  pub new_uuid : String
  pub to_str : V → Option String
  pub from_str : String → Option V
  pub to_rfc3339 : DateTime → String

-- The headers that the handlers ask for, by the answers of `HeaderMap::get`.
pub record HeaderMap (V : Type 0) : Type 0 where
  pub x_request_id : Option V
  pub if_match : Option V
  pub authorization : Option V

module _ {M D A : Type 0} where
  abbrev pub return : A → Handler M D A
  return a w = (done a, w)

  abbrev pub raise : AppError → Handler M D A
  raise e w = (fail e, w)

  -- `r?` where the error is an `AppError` already
  abbrev pub try_app : Result AppError A → Handler M D A
  try_app (ok a) w = (done a, w)
  try_app (err e) w = (fail e, w)

  -- `r?` on a result of the core crate
  abbrev pub try_core : Result Error A → Handler M D A
  try_core (ok a) w = (done a, w)
  try_core (err e) w = (fail (core e), w)

  -- `o.expect(…)`
  abbrev pub expect : Option A → Handler M D A
  expect none w = (panic, w)
  expect (some a) w = (done a, w)

  -- a call that reads a provider
  abbrev pub reads : (World M D → A) → Handler M D A
  reads f w = (done (f w), w)

  -- a call that writes to the metadata store, or to the deployment runtime
  abbrev pub on_store : (M → A × M) → Handler M D A
  on_store f w = let (a, m) = f w.store in (done a, record w { store = m })

  abbrev pub on_cluster : (D → A × D) → Handler M D A
  on_cluster f w = let (a, d) = f w.cluster in (done a, record w { cluster = d })

module _ {M D : Type 0} where
  -- `state.audit.emit(&record)`, whose failure is only logged
  abbrev pub emit : AuditRecord → Handler M D Unit
  emit r w = (done tt, record w { audit = r ∷ w.audit })

module _ {M D A B : Type 0} where
  abbrev continue : Outcome A → (A → Handler M D B) → Handler M D B
  continue (done a) f w = f a w
  continue (fail e) f w = (fail e, w)
  continue panic f w = (panic, w)

  infixl 5 ◌>>=◌
  unfoldable pub ◌>>=◌ : Handler M D A → (A → Handler M D B) → Handler M D B
  ◌>>=◌ m f w = let (o, w') = m w in continue o f w'

module _ {M D B : Type 0} where
  infixl 5 ◌>>◌
  unfoldable pub ◌>>◌ : Handler M D Unit → Handler M D B → Handler M D B
  unfolding ◌>>=◌
  m >> k = m >>= λ _. k
