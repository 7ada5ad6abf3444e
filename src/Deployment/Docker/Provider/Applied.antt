-- ===== src/Deployment/Docker/Provider/Applied.antt =====
-- What `apply` deploys, and what it refuses.
use mcp_oxide.Prelude.{
  String, some, [], ◌∷◌, true, false, ◌≡◌, ◌↔◌, ◌⊎◌, inl, inr, refl, subst, arith, Bool-cases,
}
use mcp_oxide.Core.Error.{Result, ok, err, Result-cases}
use mcp_oxide.Core.Providers.{DeploymentSpec, DeploymentHandle}
use mcp_oxide.Deployment.Image.{ImageRef, parse}
use mcp_oxide.Deployment.Docker.Daemon.{HostConfig, Config, Daemon, DaemonError, Floats}
use mcp_oxide.Deployment.Docker.Policy.{
  DockerProvider, Workload, container_name, kind_str, check_image_policy, extract_spec,
}
use mcp_oxide.Deployment.Docker.Policy.Permits.{IsPermitted, permits, permitted_passes}
use mcp_oxide.Deployment.Docker.Limits.{parse_cpu_limit, parse_memory_limit}
use mcp_oxide.Deployment.Docker.Container.{
  has_status, host_config, container_config, pull_image, create_container, connect_and_start, made,
}
use mcp_oxide.Deployment.Docker.Provider.{is_running, handle_at, apply}

module _ {D : Type 0} (docker : Daemon D) (p : DockerProvider) where
  -- a container was made, or one of its name was there, and it was started
  abbrev pub MadeAndStarted : String → Result DaemonError (Unit {0}) × D → D → Type 0
  MadeAndStarted name result d' =
      ((result.0 ≡ ok tt) ⊎ ((e : DaemonError) × (result.0 ≡ err e) × (has_status 409 e ≡ true)))
      × (connect_and_start docker p name result.1 ≡ (ok name, d'))

  connect_and_start-name :
      (n name : String) (d d' : D) → connect_and_start docker p n d ≡ (ok name, d') → name ≡ n
  unfolding connect_and_start
  connect_and_start-name n name d d' h =
      elim (Result-cases (docker.start_container n (docker.connect_network p.network n d).1).0) [
        | inl (e, x) ↦ absurd (ground arith)
        | inr (done, x) ↦ ground arith
      ]

  made-MadeAndStarted :
      (n name : String) (result : Result DaemonError (Unit {0}) × D) (d' : D)
      → made docker p n result ≡ (ok name, d')
      → (name ≡ n) × MadeAndStarted n result d'
  made-MadeAndStarted n name (ok done, d) d' h =
      let same = connect_and_start-name n name d d' h in (same, (inl refl, rw same at h))
  made-MadeAndStarted n name (err e, d) d' h = elim (Bool-cases (has_status 409 e)) [
    | inr other ↦ absurd (ground arith)
    | inl there ↦
        let k : connect_and_start docker p n d ≡ (ok name, d') = rw there at h in
        let same = connect_and_start-name n name d d' k in
        (same, (inr (e, refl, there), rw same at k))
  ]

  made-of :
      (n : String) (result : Result DaemonError (Unit {0}) × D) (d' : D)
      → MadeAndStarted n result d'
      → made docker p n result ≡ (ok n, d')
  made-of n (ok done, d) d' (how, h) = h
  made-of n (err e, d) d' (how, h) = elim how [
    | inl x ↦ absurd (ground arith)
    | inr (e', x, there) ↦ ground arith
  ]

module _ {D F : Type 0} (docker : Daemon D) (floats : Floats F) (p : DockerProvider) where
  -- the limits and the rights that the provider gives to every container
  pub record Hardened (work : Workload) (config : Config) : Type 0 where
    pub host : HostConfig
    pub is_host : config.host_config ≡ some host
    pub user : config.user ≡ some "65532:65532"
    pub readonly_rootfs : host.readonly_rootfs ≡ some true
    pub cap_drop : host.cap_drop ≡ some ("ALL" ∷ [])
    pub security_opt : host.security_opt ≡ some ("no-new-privileges:true" ∷ [])
    pub pids_limit : host.pids_limit ≡ some 256
    pub tmpfs : host.tmpfs ≡ some (("/tmp", "rw,noexec,nosuid,size=64m") ∷ [])
    pub network : host.network_mode ≡ some p.network
    pub cpus : host.nano_cpus ≡ parse_cpu_limit floats work.resources.cpu
    pub memory :
        (host.memory ≡ parse_memory_limit work.resources.memory)
        × (host.memory_swap ≡ parse_memory_limit work.resources.memory)
    pub image : config.image ≡ some work.reference

  container_config-Hardened :
      (spec : DeploymentSpec) (work : Workload)
      → Hardened work (container_config floats p spec work)
  unfolding container_config host_config
  container_config-Hardened spec work = record {
    host = host_config floats p work.resources;
    is_host = refl;
    user = refl;
    readonly_rootfs = refl;
    cap_drop = refl;
    security_opt = refl;
    pids_limit = refl;
    tmpfs = refl;
    network = refl;
    cpus = refl;
    memory = (refl, refl);
    image = refl;
  }

  -- A container made from the specification: the image that it names was permitted and pulled, the
  -- container made under the provider's name for it, with the limits and the rights that the
  -- provider gives to all, or found to be there already, and started.
  pub record Started (spec : DeploymentSpec) (work : Workload) (image : ImageRef) (name : String)
      (d d' : D) : Type 0 where
    pub parsed : parse work.reference ≡ ok image
    pub permitted : IsPermitted p image
    pub pulled : (pull_image docker image d).0 ≡ ok tt
    pub named : name ≡ container_name (kind_str spec.kind) spec.name
    pub hardened : Hardened work (container_config floats p spec work)
    pub made :
        MadeAndStarted docker p name
          (docker.create_container name
            (container_config floats p spec work)
            (pull_image docker image d).1)
          d'

  create_container-Started :
      (spec : DeploymentSpec) (work : Workload) (name : String) (d d' : D)
      → extract_spec spec ≡ ok work
      → create_container docker floats p spec d ≡ (ok name, d')
      → (image : ImageRef) × Started spec work image name d d'
  unfolding create_container
  create_container-Started spec work name d d' extracted h =
      elim (Result-cases (parse work.reference)) [
        | inl (e, x) ↦ absurd (ground arith)
        | inr (image, x) ↦ elim (Result-cases (check_image_policy p image)) [
          | inl (e, y) ↦ absurd (ground arith)
          | inr (done, y) ↦ elim (Result-cases (pull_image docker image d).0) [
            | inl (e, z) ↦ absurd (ground arith)
            | inr (done', z) ↦
                let n = container_name (kind_str spec.kind) spec.name in
                let h' : made docker p n (
                      docker.create_container n (container_config floats p spec work)
                        (pull_image docker image d).1)
                    ≡ (ok name, d') =
                  ground arith in
                let (same, how) = made-MadeAndStarted docker p n name _ d' h' in
                (
                  image,
                  record {
                    parsed = x;
                    permitted = permits p image y;
                    pulled = z;
                    named = same;
                    hardened = container_config-Hardened spec work;
                    made = rw same how;
                  },
                )
          ]
        ]
      ]

  -- what an `apply` that succeeds has found or done
  pub record Applied (spec : DeploymentSpec) (handle : DeploymentHandle) (d d' : D) : Type 0 where
    pub work : Workload
    pub extracted : extract_spec spec ≡ ok work
    pub handled :
        handle ≡ handle_at docker p (container_name (kind_str spec.kind) spec.name) work.endpoint d'
    pub deployed :
        ((is_running docker p (container_name (kind_str spec.kind) spec.name) d ≡ true) × (d' ≡ d))
        ⊎ ((image : ImageRef) × (is_running docker p
                (container_name (kind_str spec.kind) spec.name)
                d
              ≡ false)
            × Started spec work image (container_name (kind_str spec.kind) spec.name) d d')

  apply-Applied :
      (spec : DeploymentSpec) (handle : DeploymentHandle) (d d' : D)
      → apply docker p floats spec d ≡ (ok handle, d')
      → Applied spec handle d d'
  unfolding apply
  apply-Applied spec handle d d' h = elim (Result-cases (extract_spec spec)) [
    | inl (e, x) ↦ absurd (ground arith)
    | inr (work, x) ↦
        let name = container_name (kind_str spec.kind) spec.name in
        elim (Bool-cases (is_running docker p name d)) [
          | inl runs ↦
              let same : d' ≡ d = ground arith in
              record {
                work = work;
                extracted = x;
                handled = rw same (ground arith);
                deployed = inl (runs, same);
              }
          | inr idle ↦ elim (Result-cases (create_container docker floats p spec d).0) [
            | inl (e, y) ↦ absurd (ground arith)
            | inr (n, y) ↦
                let c : create_container docker floats p spec d ≡ (ok n, d') = ground arith in
                let (image, how) = create_container-Started spec work n d d' x c in
                record {
                  work = work;
                  extracted = x;
                  handled = rw (← how.named) (ground arith);
                  deployed =
                      inr (image, idle, subst (λ m. Started spec work image m d d') how.named how);
                }
          ]
        ]
  ]

  create_container-of :
      (spec : DeploymentSpec) (work : Workload) (image : ImageRef) (d d' : D)
      → extract_spec spec ≡ ok work
      → Started spec work image (container_name (kind_str spec.kind) spec.name) d d'
      → create_container docker floats p spec d
        ≡ (ok (container_name (kind_str spec.kind) spec.name), d')
  unfolding create_container
  create_container-of spec work image d d' extracted s =
      let name = container_name (kind_str spec.kind) spec.name in
      let passes = permitted_passes p image s.permitted in
      let m =
        made-of docker p name
          (docker.create_container name (container_config floats p spec work)
            (pull_image docker image d).1)
          d' s.made in
      rw (extracted, s.parsed, passes, s.pulled) m

  apply-of :
      (spec : DeploymentSpec) (handle : DeploymentHandle) (d d' : D)
      → Applied spec handle d d'
      → apply docker p floats spec d ≡ (ok handle, d')
  unfolding apply
  apply-of spec handle d d' a = elim a.deployed [
    | inl (runs, same) ↦ rw (a.extracted, runs) (ground arith)
    | inr (image, idle, s) ↦
        let c = create_container-of spec a.work image d d' a.extracted s in
        rw (a.extracted, idle, c) (ground arith)
  ]

  pub apply_iff :
      (spec : DeploymentSpec) (handle : DeploymentHandle) (d d' : D)
      → (apply docker p floats spec d ≡ (ok handle, d')) ↔ Applied spec handle d d'
  apply_iff spec handle d d' = (apply-Applied spec handle d d', apply-of spec handle d d')
