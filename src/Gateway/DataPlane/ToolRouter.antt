-- ===== src/Gateway/DataPlane/ToolRouter.antt =====
-- crates/gateway/src/routes/tool_router.rs: `tools/list`, which shows a user the tools that the
-- user may call, page by page. The result is kept as a record; the program prints it as JSON.
pub mod Paging
pub mod Visible
use mcp_oxide.Prelude.{
  ℕ, ◌+◌, ◌%◌, ◌^◌, String, Bool, true, false, Option, none, some, List, [], ◌∷◌, map, length, take,
  drop, keep, leb, ltb, ◌-◌, unwrap_or, if◌then◌else◌,
}
use mcp_oxide.Text.{format}
use mcp_oxide.Text.Decimal.{to_decimal, parse_u64}
use mcp_oxide.Core.Error.{
  Error, forbidden, invalid_request, Result, ok, err, AppError, core, done, fail,
}
use mcp_oxide.Core.Json.{Json}
use mcp_oxide.Core.Identity.{UserContext}
use mcp_oxide.Core.Policy.{tool_kind}
use mcp_oxide.Core.Model.{Tool, ToolDefinition}
use mcp_oxide.Core.Audit.{AuditDecision, allow, deny, AuditRecord}
use mcp_oxide.Core.Providers.{PolicyEngine, Filter}
use mcp_oxide.Gateway.State.{AppState, World}
use mcp_oxide.Gateway.Handler.{
  Host, Handler, return, raise, try_core, expect, reads, emit, ◌>>=◌, ◌>>◌,
}
use mcp_oxide.Gateway.DataPlane.Helpers.{DataPlaneAuthz, authorize_data_plane, data_audit_record}

abbrev pub max_tools_page_size : ℕ
max_tools_page_size = 200

abbrev pub default_tools_page_size : ℕ
default_tools_page_size = 50

pub record ListParams : Type 0 where
  pub cursor : Option String
  pub page_size : Option ℕ

-- What `tools/list` answers: the definitions on the page, and `nextCursor`.
pub record ToolsPage : Type 0 where
  pub tools : List ToolDefinition
  pub next_cursor : Option String

-- `Ord::clamp` and `Ord::min`
abbrev pub clamp : ℕ → ℕ → ℕ → ℕ
clamp n low high = if ltb n low then low else if ltb high n then high else n

abbrev pub min : ℕ → ℕ → ℕ
min a b = if leb a b then a else b

abbrev pub page_size_of : ListParams → ℕ
page_size_of params =
    clamp (unwrap_or default_tools_page_size params.page_size) 1 max_tools_page_size

abbrev read_cursor : Option String → Option ℕ
read_cursor none = none
read_cursor (some c) = parse_u64 c

-- a `usize` has 64 bits
unfoldable pub cursor_start_of : ListParams → ℕ
cursor_start_of params = unwrap_or 0 (read_cursor params.cursor)

module _ {A : Type 0} where
  -- `&xs[begin..end]`; `None` is the panic of a range that is reversed or too long
  abbrev pub slice : ℕ → ℕ → List A → Option (List A)
  slice begin end xs =
      if leb begin end
      then if leb end (length xs) then some (take (end - begin) (drop begin xs)) else none
      else none

  -- `end`, where the sum wraps around as in the release build
  abbrev pub page_end : ℕ → ℕ → List A → ℕ
  page_end start size xs = min ((start + size) % 2 ^ 64) (length xs)

  unfoldable pub page_of : ℕ → ℕ → List A → Option (List A)
  page_of start size xs = slice (min start (length xs)) (page_end start size xs) xs

  unfoldable pub next_cursor_of : ℕ → ℕ → List A → Option String
  next_cursor_of start size xs =
      if ltb (page_end start size xs) (length xs)
      then some (to_decimal (page_end start size xs))
      else none

unfoldable pub can_call_tool : PolicyEngine → UserContext → Tool → Bool
can_call_tool authz user t =
    elim (authorize_data_plane authz user "tools/call" (some t.tool_definition.name) tool_kind
      t.name t.tags t.required_roles) [ ok _ ↦ true | err _ ↦ false ]

unfoldable pub list_params_of :
    (Json → Result String ListParams) → Option Json → Result Error ListParams
list_params_of from_value none = ok (record { cursor = none; page_size = none })
list_params_of from_value (some v) = elim (from_value v) [
  | ok params ↦ ok params
  | err e ↦ err (invalid_request (format ("tools/list params: " ∷ e ∷ [])))
]

-- `from_value` is serde's reading of the parameters.
module _ {V M D : Type 0} (host : Host V) (from_value : Json → Result String ListParams)
    (state : AppState M D) (user : UserContext) (trace_id : String) where
  abbrev pub list_audit : AuditDecision → Option String → String → Option String → AuditRecord
  list_audit decision policy_id status error =
      data_audit_record host trace_id user "tools/list" "tool" "*" decision policy_id 0 status ""
        error

  abbrev or_forbid : Result String DataPlaneAuthz → Handler M D DataPlaneAuthz
  or_forbid (ok a) w = (done a, w)
  or_forbid (err reason) w = (
    fail (core (forbidden reason)),
    record w { audit = list_audit deny none "forbidden" (some reason) ∷ w.audit },
  )

  unfoldable pub handle_tools_list : Option Json → Handler M D ToolsPage
  unfolding ◌>>=◌ ◌>>◌
  handle_tools_list params_json = do
    authz ← or_forbid (authorize_data_plane state.authz user "tools/list" none tool_kind "*" [] [])
    params ← try_core (list_params_of from_value params_json)
    answer ← reads (λ w. state.metadata.list_tools (record { tenant = none; tags = [] }) w.store)
    tools ← try_core answer
    let visible = keep (can_call_tool state.authz user) tools
    page ← expect (page_of (cursor_start_of params) (page_size_of params) visible)
    emit (list_audit allow authz.policy_id "ok" none)
    return (record {
      tools = map (λ t. t.tool_definition) page;
      next_cursor = next_cursor_of (cursor_start_of params) (page_size_of params) visible;
    })
