-- ===== src/Examples/Deploy.antt =====
-- An image reference, and a Docker daemon that has no container and makes every one it is asked
-- for; its state is the list of those that run.
use mcp_oxide.Prelude.{
  ℕ, ◌*◌, String, true, false, none, some, List, [], ◌∷◌, any, ◌==◌, leb, if◌then◌else◌, ◌≡◌, ◌≢◌,
  ◌↔◌, refl,
}
use mcp_oxide.Text.{split, contains, strip_prefix, starts_with, rsplit_once}
use mcp_oxide.Text.Decimal.{parse_u64, to_decimal}
use mcp_oxide.Core.Error.{ok, err}
use mcp_oxide.Core.Providers.{tool_deployment, DeploymentSpec, DeploymentHandle}
use mcp_oxide.Deployment.Image.{ImageRef, parse, split_digest, split_tag, at_last_slash}
use mcp_oxide.Deployment.Image.Parse.{print, IsProper, parse_iff}
use mcp_oxide.Deployment.Docker.Daemon.{Daemon, server_error, running, Floats}
use mcp_oxide.Deployment.Docker.Policy.{
  DockerProvider, container_name, registry_of, check_image_policy, extract_spec,
}
use mcp_oxide.Deployment.Docker.Container.{
  pull_events, pull_image, connect_and_start, create_container, inspected, resolve_endpoint_url,
  host_of, url_text,
}
use mcp_oxide.Deployment.Docker.Provider.{is_running, handle_at, apply}
use mcp_oxide.Deployment.Docker.Provider.Applied.{Applied}
use mcp_oxide.Deployment.Docker.Provider.Handles.{apply-handle_for}
use mcp_oxide.Gateway.ControlPlane.Helpers.{handle_for}
use mcp_oxide.Examples.Router.{tool}

abbrev reference : String
reference = "registry.example.com:5000/tools/echo:1.2@sha256:ab"

abbrev image : ImageRef
image = record {
  name = "registry.example.com:5000/tools/echo";
  tag = some "1.2";
  digest = some "sha256:ab";
}

parse_run : parse reference ≡ ok image
unfolding parse split_digest split_tag at_last_slash rsplit_once contains
parse_run = refl

parse_iff_example : (parse reference ≡ ok image) ↔ ((reference ≡ print image) × IsProper image)
parse_iff_example = parse_iff reference image

abbrev daemon : Daemon (List String)
daemon = record {
  inspect_network = λ name d. ok tt;
  create_network = λ name driver check d. (ok tt, d);
  create_image = λ name tag d. (ok (some "Pulling") ∷ [], d);
  create_container = λ name config d. (ok tt, d);
  connect_network = λ network name d. (err (server_error 403 "already connected"), d);
  start_container = λ name d. (ok tt, name ∷ d);
  stop_container = λ name seconds d. (ok tt, d);
  remove_container = λ name force d. (ok tt, d);
  inspect_container = λ name d.
      if any (λ n. n == name) d
      then ok (record {
        name = some "/mcp-oxide-tool-a";
        state = some (record { running = some true; status = some running });
        network_settings = none;
      })
      else err (server_error 404 "no such container");
  logs = λ name d. [];
  to_text = λ e. "error";
}

abbrev floats : Floats ℕ
floats = record {
  parse = parse_u64;
  of_nat = λ n. n;
  is_finite = λ n. true;
  le = leb;
  times = λ m n. m * n;
  round = λ n. n;
  as_i64 = λ n. n;
}

abbrev provider : DockerProvider
provider = record {
  network = "mcp-oxide";
  allowed_registries = "docker.io" ∷ [];
  require_digest_pinning = false;
}

abbrev spec : DeploymentSpec
spec = record { name = "a"; kind = tool_deployment; adapter = none; tool = some tool }

abbrev handle : DeploymentHandle
handle = record {
  id = "mcp-oxide-tool-a";
  namespace = some "mcp-oxide";
  endpoint_url = some "http://mcp-oxide-tool-a:8080/tool";
}

apply_run : apply daemon provider floats spec [] ≡ (ok handle, "mcp-oxide-tool-a" ∷ [])
unfolding apply extract_spec create_container parse split_digest split_tag at_last_slash rsplit_once
    check_image_policy registry_of container_name pull_image pull_events is_running contains split
    connect_and_start handle_at resolve_endpoint_url inspected url_text host_of strip_prefix
    to_decimal starts_with
apply_run = refl

apply-handle_for_example : handle.id ≢ (handle_for spec.name).id
apply-handle_for_example =
    apply-handle_for daemon floats provider spec handle [] ("mcp-oxide-tool-a" ∷ []) apply_run
