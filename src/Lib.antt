-- ===== src/Lib.antt =====
-- mcp-oxide: a gateway for MCP servers. This library models the gateway's control plane and data
-- plane, the policy engine and the identity providers that guard them, the stores and the
-- deployment providers behind them, and the wiring of all of these from a configuration, and states
-- what they promise.
--
-- The program and its parts. At start-up crates/gateway/src/state.rs chooses a provider of each
-- kind from the configuration. A request is authenticated by an identity provider
-- (crates/identity). Clients register adapters and tools through the handlers of
-- crates/gateway/src/routes/control_plane.rs. A handler asks the policy engine (crates/authz)
-- whether the user may, checks the body (crates/gateway/src/routes/validation.rs) and the revision
-- of `If-Match`, writes the record to the metadata store (crates/metadata), has the deployment
-- provider (crates/deployment) start or stop the container, and leaves an audit record. The proxy
-- route forwards a request to an adapter's upstream; the tool router lists the tools that a user
-- may call and forwards calls to their backends.
--
-- Where what is modelled:
--   Core       crates/core/src: identity, policy, adapters and tools, audit records, errors, and the
--              provider traits as records of operations over an explicit state; Core.Providers.Laws
--              says what the handlers rely on from a metadata store. Core.Error also has the error
--              of crates/gateway/src/error.rs with its HTTP status.
--   Text       the functions on texts of Rust's standard library that the program calls, with
--              decimal printing and parsing
--   Authz      crates/authz/src: the deny-all engine and the YAML policy of yaml_rbac.rs
--   Metadata   crates/metadata/src: Memory is the in-memory store of memory.rs and Sql the SQLite
--              store of sql.rs, over a database and a JSON codec that are parameters; the
--              `ON CONFLICT` clause of its statements is data that the database's laws read
--   Deployment crates/deployment/src: the provider for external workloads of noop.rs; Image is
--              image_ref.rs; Docker is docker.rs, whose daemon is the parameter Docker.Daemon, with
--              Limits, Policy, Container and Provider for its parts
--   Identity   crates/identity/src: the provider that refuses all, Claims is claims.rs, StaticJwt
--              static_jwt.rs and Oidc oidc.rs; Jwt holds the calls of the `jsonwebtoken` crate
--   Session    crates/session/src/lib.rs: the in-memory session store
--   Secrets    crates/secrets/src/lib.rs: secrets from the environment
--   Gateway    crates/gateway/src: State and Bootstrap are state.rs, Config is config.rs, Auth is
--              auth.rs, Validation is routes/validation.rs,
--              ControlPlane.Helpers is routes/control_plane_helpers.rs, and ControlPlane.Bodies,
--              Steps, Adapters and Tools are routes/control_plane.rs, whose theorems speak of the
--              policy's answer, the audit record and the revisions by ControlPlane.Guarantees;
--              DataPlane.Helpers is
--              routes/data_plane_helpers.rs, DataPlane.Invoke is routes/data_plane.rs and
--              DataPlane.Proxy proxy.rs; DataPlane.Dispatch, ToolRouter and ToolCall are the
--              dispatch, `tools/list` and `tools/call` of routes/tool_router.rs with
--              crates/mcp/src/jsonrpc.rs; Handler is the form that all handlers share
--   Examples   concrete runs, which instantiate the hypotheses of the theorems
--
-- A handler is a function of the `World`, that is the content of the metadata store, the state of
-- the deployment runtime and the audit records so far; it ends in a value, an error or a panic,
-- beside the world that it leaves. An `async` call of a provider is one step; requests run one
-- after the other, so that races between two requests are not modelled. A handler is written as
-- its checks followed by its effects, in the order of the source. The conversions of the `http`
-- crate, the clock, the generator of request ids and `chrono`'s print of a time are the parameter
-- `Host`; the network and serde's reading of JSON are parameters too. A `u64` revision and a
-- `usize` sum wrap around at 2^64, as in the release build; a debug build panics there instead.
-- Every loop of the program is a structural recursion, but for decimal printing, whose fuel is the
-- number itself plus one, and a client's walk over the pages of `tools/list`, which is given a
-- number of pages that is enough.
--
-- The cache of the OIDC provider is part of its state, beside the network and the clock; the
-- states it reaches are those of a step relation, in which time passes between calls. The session
-- store's history is the list of the calls that write. An instant plus a time to live, and a
-- duration in nanoseconds, do not overflow; a memory limit saturates as the code has it.
--
-- Not modelled: axum's routing and its reading of bodies, serde and figment (what they read is
-- given), the network itself, the Docker daemon, the SQL engine, the JWT library and floating-point
-- numbers (parameters, with laws where a theorem needs them), the test doubles of
-- crates/testing, logging and metrics.
pub mod Prelude
pub mod Core
pub mod Text
pub mod Authz
pub mod Metadata
pub mod Deployment
pub mod Identity
pub mod Session
pub mod Secrets
pub mod Gateway
pub mod Examples
