-- ===== src/Deployment/Docker/Policy.antt =====
-- What a deployment asks of its image, and where that is: crates/deployment/src/docker.rs,
-- `DockerConfig`, `DockerProvider` and the functions that call no daemon.
pub mod Permits
use mcp_oxide.Prelude.{
  ℕ, String, Bool, true, false, ◌&&◌, ◌||◌, not, Option, none, some, List, [], ◌∷◌, any, ◌==◌,
  if◌then◌else◌,
}
use mcp_oxide.Text.{format, contains, is_char, split}
use mcp_oxide.Core.Error.{Error, internal, invalid_request, Result, ok, err}
use mcp_oxide.Core.Model.{Endpoint, EnvVar, Resources, Adapter, Tool}
use mcp_oxide.Core.Providers.{DeploymentKind, adapter_deployment, tool_deployment, DeploymentSpec}
use mcp_oxide.Deployment.Image.{ImageRef, is_digest_pinned}

pub record DockerConfig : Type 0 where
  pub socket : String
  pub network : String
  pub connect_timeout_s : ℕ
  pub allowed_registries : List String
  pub require_digest_pinning : Bool

abbrev pub default_config : DockerConfig
default_config = record {
  socket = "/var/run/docker.sock";
  network = "mcp-oxide";
  connect_timeout_s = 120;
  allowed_registries = [];
  require_digest_pinning = false;
}

-- the provider without its connection, which is a parameter of the calls
pub record DockerProvider : Type 0 where
  pub network : String
  pub allowed_registries : List String
  pub require_digest_pinning : Bool

unfoldable pub container_name : (kind name : String) → String
container_name kind name = format ("mcp-oxide-" ∷ kind ∷ "-" ∷ name ∷ [])

abbrev pub kind_str : DeploymentKind → String
kind_str adapter_deployment = "adapter"
kind_str tool_deployment = "tool"

abbrev first_part : String → List String → String
first_part whole [] = whole
first_part whole (part ∷ parts) = part

-- the registry that the policy takes an image to come from
unfoldable pub registry_of : String → String
registry_of name =
    let head = first_part name (split b'/' name) in
    if contains (is_char b'.') head || contains (is_char b':') head then head else "docker.io"

abbrev pub check_registry : List String → String → Result Error (Unit {0})
check_registry [] registry = ok tt
check_registry (allowed ∷ rest) registry =
    if any (λ r. r == registry) (allowed ∷ rest)
    then ok tt
    else err (
        invalid_request
          (format ("image registry '" ∷ registry ∷ "' is not in the allowed_registries list" ∷ [])))

unfoldable pub check_image_policy : DockerProvider → ImageRef → Result Error (Unit {0})
check_image_policy p image =
    let listed = check_registry p.allowed_registries (registry_of image.name) in
    if p.require_digest_pinning && not (is_digest_pinned image)
    then err (
        invalid_request (
          format (
            "image '" ∷ image.name ∷ "' is not digest-pinned and require_digest_pinning=true"
            ∷ [])))
    else listed

-- the reference, the endpoint, the environment and the resources of a specification
pub record Workload : Type 0 where
  pub reference : String
  pub endpoint : Endpoint
  pub env : List EnvVar
  pub resources : Resources

abbrev of_tool : Option Tool → Result Error Workload
of_tool none = err (internal "DeploymentSpec has neither adapter nor tool")
of_tool (some t) = ok (record {
  reference = t.image.reference;
  endpoint = t.endpoint;
  env = t.env;
  resources = t.resources;
})

abbrev of_adapter : Option Adapter → Option Tool → Result Error Workload
of_adapter none t = of_tool t
of_adapter (some a) t = ok (record {
  reference = a.image.reference;
  endpoint = a.endpoint;
  env = a.env;
  resources = a.resources;
})

unfoldable pub extract_spec : DeploymentSpec → Result Error Workload
extract_spec spec = of_adapter spec.adapter spec.tool
