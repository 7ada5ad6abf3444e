-- ===== src/Gateway/DataPlane/ToolRouter/Visible.antt =====
-- What `tools/list` shows, and when it answers.
use mcp_oxide.Prelude.{
  ℕ, ◌+◌, ◌-◌, ◌<◌, ◌≤◌, ◌%◌, ◌^◌, String, Bool, true, false, Option, none, some, List, [], ◌∷◌,
  map, ◌≡◌, ◌↔◌, inl, inr, refl, arith, leb_iff, Option-cases, length, keep, All, leb, Bool-cases,
}
use mcp_oxide.Core.Error.{Result, ok, done, Result-cases}
use mcp_oxide.Core.Json.{Json}
use mcp_oxide.Core.Identity.{UserContext}
use mcp_oxide.Core.Policy.{tool_kind}
use mcp_oxide.Core.Model.{Tool}
use mcp_oxide.Core.Audit.{allow}
use mcp_oxide.Core.Providers.{PolicyEngine}
use mcp_oxide.Gateway.State.{AppState, World}
use mcp_oxide.Gateway.Handler.{Host, ◌>>=◌, ◌>>◌}
use mcp_oxide.Gateway.DataPlane.Helpers.{DataPlaneAuthz, authorize_data_plane}
use mcp_oxide.Gateway.DataPlane.ToolRouter.{
  ListParams, ToolsPage, page_size_of, cursor_start_of, page_of, next_cursor_of, can_call_tool,
  list_params_of, list_audit, handle_tools_list,
}

-- The slice of a page panics exactly when the sum of the cursor and of the page size overflows a
-- u64 and the wrapped sum falls below the number of visible tools. A page size is at most 200.
pub page_of_panics_iff :
    {A : Type 0} (start size : ℕ) (xs : List A)
    → start < 2 ^ 64
    → size ≤ 200
    → (page_of start size xs ≡ none)
      ↔ ((2 ^ 64 ≤ start + size) × (start + size < 2 ^ 64 + length xs))
unfolding page_of
page_of_panics_iff start size xs bound small = (
  elim (Bool-cases (leb (2 ^ 64) (start + size))) [
    | inl over ↦ λ h.
        let wraps : (start + size) % 2 ^ 64 ≡ start + size - 2 ^ 64 =
          omega (arith, (leb_iff (2 ^ 64) (start + size)).0 over, bound, small) in
        ground arith
    | inr within ↦ λ h.
        let below : start + size < 2 ^ 64 = ground arith in
        let wraps : (start + size) % 2 ^ 64 ≡ start + size = omega (arith, below) in ground arith
  ],
  λ h.
      let wraps : (start + size) % 2 ^ 64 ≡ start + size - 2 ^ 64 =
        omega (arith, h.0, bound, small) in
      ground arith,
)

abbrev pub Callable : PolicyEngine → UserContext → Tool → Type 0
Callable authz user t =
    (a : DataPlaneAuthz) × (authorize_data_plane authz user "tools/call"
        (some t.tool_definition.name) tool_kind t.name t.tags t.required_roles
      ≡ ok a)

Callable-of :
    (authz : PolicyEngine) (user : UserContext) (t : Tool)
    → can_call_tool authz user t ≡ true
    → Callable authz user t
unfolding can_call_tool
Callable-of authz user t h =
    elim (Result-cases (
      authorize_data_plane authz user "tools/call" (some t.tool_definition.name) tool_kind t.name
        t.tags t.required_roles)) [ inl (e, x) ↦ ground arith | inr (a, x) ↦ (a, x) ]

keep-All :
    {A : Type 0} (p : A → Bool) (P : A → Type 0)
    → ((a : A) → p a ≡ true → P a)
    → (xs : List A) → All P (keep p xs)
keep-All p P f [] = tt
keep-All p P f (x ∷ xs) = go (p x) (f x) (keep-All p P f xs)
  where
    go :
        (b : Bool)
        → ((b ≡ true) → P x)
        → All P (keep p xs)
        → All P (elim b [ true ↦ x ∷ keep p xs | false ↦ keep p xs ])
    go true g rest = (g refl, rest)
    go false g rest = rest

module _ {V M D : Type 0} (host : Host V) (from_value : Json → Result String ListParams)
    (state : AppState M D) (user : UserContext) (trace_id : String) (params_json : Option Json)
    (w : World M D) where
  abbrev pub visible : List Tool → List Tool
  visible tools = keep (can_call_tool state.authz user) tools

  pub record Listed (authz : DataPlaneAuthz) (params : ListParams) (tools page : List Tool)
      (answer : ToolsPage) (w' : World M D) : Type 0 where
    pub allowed :
        authorize_data_plane state.authz user "tools/list" none tool_kind "*" [] [] ≡ ok authz
    pub params_read : list_params_of from_value params_json ≡ ok params
    pub listed : state.metadata.list_tools (record { tenant = none; tags = [] }) w.store ≡ ok tools
    pub cut : page_of (cursor_start_of params) (page_size_of params) (visible tools) ≡ some page
    pub shown : answer.tools ≡ map (λ t. t.tool_definition) page
    pub next :
        answer.next_cursor
        ≡ next_cursor_of (cursor_start_of params) (page_size_of params) (visible tools)
    pub audited : w' ≡ record w {
      audit =
          list_audit host from_value state user trace_id allow authz.policy_id "ok" none ∷ w.audit;
    }

  -- An answer of `tools/list` shows the definitions of one page of the tools that the user may
  -- call, and each of these is a tool that `authorize_data_plane` lets the user call; listing was
  -- itself allowed, and all that changed is one audit record more.
  pub handle_tools_list-Listed :
      {answer : ToolsPage} {w' : World M D}
      → handle_tools_list host from_value state user trace_id params_json w ≡ (done answer, w')
      → (authz : DataPlaneAuthz) × (params : ListParams) × (tools : List Tool) × (page : List Tool)
        × Listed authz params tools page answer w'
        × All (Callable state.authz user) (visible tools)
  unfolding handle_tools_list
  handle_tools_list-Listed {answer} {w'} h =
      elim (Result-cases
        (authorize_data_plane state.authz user "tools/list" none tool_kind "*" [] [])) [
          | inl (e, x) ↦ ground arith
          | inr (authz, x) ↦ elim (Result-cases (list_params_of from_value params_json)) [
            | inl (e, y) ↦ ground arith
            | inr (params, y) ↦
                elim (Result-cases
                  (state.metadata.list_tools (record { tenant = none; tags = [] }) w.store)) [
                    | inl (e, z) ↦ ground arith
                    | inr (tools, z) ↦
                        elim (Option-cases (
                          page_of (cursor_start_of params) (page_size_of params) (visible tools))) [
                            | inl none_there ↦ ground arith
                            | inr (page, cut) ↦ (
                              authz,
                              params,
                              tools,
                              page,
                              record {
                                allowed = x;
                                params_read = y;
                                listed = z;
                                cut = cut;
                                shown = ground arith;
                                next = ground arith;
                                audited = ground arith;
                              },
                              keep-All (can_call_tool state.authz user) (Callable state.authz user)
                                  (Callable-of state.authz user) tools,
                            )
                          ]
                  ]
          ]
        ]

  -- A `tools/list` that the policy allows, with parameters that are read and a store that lists its
  -- tools, is answered, and does not panic, if the cursor leaves room for a page below 2^64.
  pub handle_tools_list_answers :
      (authz : DataPlaneAuthz) (params : ListParams) (tools : List Tool)
      → authorize_data_plane state.authz user "tools/list" none tool_kind "*" [] [] ≡ ok authz
      → list_params_of from_value params_json ≡ ok params
      → state.metadata.list_tools (record { tenant = none; tags = [] }) w.store ≡ ok tools
      → cursor_start_of params + page_size_of params < 2 ^ 64
      → (answer : ToolsPage) × ((handle_tools_list host from_value state user trace_id params_json
            w).0
          ≡ done answer)
  unfolding handle_tools_list ◌>>=◌ ◌>>◌
  handle_tools_list_answers authz params tools allowed read listed fits =
      let start = cursor_start_of params in
      let size = page_size_of params in
      let small : size ≤ 200 = ground arith in
      elim (Option-cases (page_of start size (visible tools))) [
        | inl panics ↦
            let over =
              (page_of_panics_iff start size (visible tools) (omega (arith, fits)) small).0
                panics in
            absurd (omega (arith, fits, over.0))
        | inr (page, cut) ↦ (
          record {
            tools = map (λ t. t.tool_definition) page;
            next_cursor = next_cursor_of start size (visible tools);
          },
          rw (allowed, read, listed, cut) refl,
        )
      ]
