-- ===== src/Entry/Program.antt =====
-- cmd/service-provider-otel-collector/main.go: main and initializePlatformCluster. `os.Exit(n)` is the
-- error `n`; a return from main is the value, after which the process exits with 0. The log is left out.
pub mod Started
pub mod Init
pub mod Wired
pub mod Updates
use service_provider_otel_co.Base.{
  ℕ, String, Bool, Option, some, List, [], ◌∷◌, text_eq, Exec, Result, ok, err, pure, raise, ◌>>=◌,
  ◌>>◌, if◌then◌else◌,
}
use service_provider_otel_co.Kube.Objects.{GroupVersionKind}
use service_provider_otel_co.Kube.Client.{Runtime, Call, Client}
use service_provider_otel_co.Api.Service.{
  OtelCollectorService, OtelCollectorServiceStatus, empty_service, group, version,
}
use service_provider_otel_co.Api.Config.{ProviderConfig, empty_config}
use service_provider_otel_co.Spruntime.Api.{ClusterAccessProvider, ServiceProviderReconciler}
use service_provider_otel_co.Spruntime.Builders.{
  SpBuilder, PcBuilder, new_sp_reconciler, with_platform_cluster, with_onboarding_cluster,
  with_service_provider_reconciler, with_cluster_access_reconciler, new_pc_reconciler,
  pc_with_platform_cluster, with_update_channel,
}
use service_provider_otel_co.Spruntime.Setup.{
  SpSetup, PcSetup, sp_setup_with_manager, pc_setup_with_manager,
}
use service_provider_otel_co.Controller.Reconciler.{otel_reconciler}
use service_provider_otel_co.Entry.Permissions.{PolicyRule, onboarding_permissions}
use service_provider_otel_co.Entry.Schemes.{Schemes}
use service_provider_otel_co.Entry.Clusters.{
  AccessManager, AccessSetup, CrdManager, access_manager, access_setup,
}
use service_provider_otel_co.Entry.Options.{
  Flags, default_flags, split_args, WebhookOptions, MetricsOptions, webhook_server_options,
  metrics_server_options,
}

-- ctrl.Options, as far as the program sets it
pub record ManagerOptions (Scheme : Type 0) : Type 0 where
  pub scheme : Scheme
  pub metrics : MetricsOptions
  pub webhook : WebhookOptions
  pub health_probe_bind_address : String
  pub leader_election : Bool
  pub leader_election_id : String

-- What main calls of other libraries, and crds.CRDs. A cluster that `create_and_wait` does not return is `none`.
-- `create_or_update_crds` and `register_gvks` return an error or `none`; a panic ends the program. The
-- flags that are registered are given to `parse_flags` by their defaults; it and `get_config_or_die` may
-- exit. `complete_sp` and `complete_pc` are what controller-runtime makes of the two controllers that are
-- set up. `schemes` are the variables as `init` leaves them.
pub record Environment (rt : Runtime) : Type 1 where
  pub Manager : Type 0
  pub Scheme : Type 0
  pub Channel : Type 0
  pub schemes : Schemes Scheme
  pub args : List String
  pub parse_flags : Flags → List String → Exec ℕ rt.World Flags
  pub get_logger : Call rt Unit
  pub get_config_or_die : Exec ℕ rt.World Unit
  pub initialize_client : Scheme → Call rt rt.Cluster
  pub getenv : String → String
  pub env_variable_pod_namespace : String
  pub Crds : Type 0
  pub crds : Crds
  pub cluster_label : String
  pub purpose_platform : String
  pub purpose_onboarding : String
  pub create_and_wait :
      AccessManager rt.Cluster
      → String
      → String
      → Scheme
      → List PolicyRule
      → rt.World
      → (Option rt.Cluster × Option rt.Error) × rt.World
  pub create_or_update_crds : CrdManager Crds rt.Cluster → Exec ℕ rt.World (Option rt.Error)
  pub register_gvks : rt.Cluster → String → GroupVersionKind → Exec ℕ rt.World (Option rt.Error)
  pub new_manager : Option rt.Cluster → ManagerOptions Scheme → Call rt Manager
  pub add_cluster : Manager → rt.Cluster → Call rt Unit
  pub make_channel : Channel
  pub access_reconciler : AccessSetup rt.Cluster Scheme → ClusterAccessProvider rt
  pub complete_sp : Manager → SpSetup rt OtelCollectorService ProviderConfig Channel → Call rt Unit
  pub complete_pc : Manager → PcSetup rt ProviderConfig Channel → Call rt Unit
  pub add_healthz : Manager → Call rt Unit
  pub add_readyz : Manager → Call rt Unit
  pub start : Manager → Call rt Unit

abbrev pub exit_status : {E A : Type 0} → Result E A → Result ℕ A
exit_status (ok a) = ok a
exit_status (err e) = err 1

-- `if err != nil { …; os.Exit(1) }` after a call
abbrev pub or_exit : {E S A : Type 0} → Exec E S A → Exec ℕ S A
or_exit m s = let (r, s') = m s in (exit_status r, s')

module _ {rt : Runtime} (env : Environment rt) (client : rt.Cluster → Client rt)
    (equal : OtelCollectorServiceStatus → OtelCollectorServiceStatus → Bool) where
  abbrev pub Main : Type 0 → Type 0
  Main A = Exec ℕ rt.World A

  abbrev pub service_kind : GroupVersionKind
  service_kind = record { group = group; version = version; kind = "OtelCollectorService" }

  unfoldable pub initialize_platform_cluster : Main rt.Cluster
  initialize_platform_cluster =
      env.get_config_or_die >> or_exit (env.initialize_client env.schemes.platform)

  -- The call returns a cluster and an error; the error is logged.
  abbrev pub await_onboarding : rt.Cluster → String → Main (Option rt.Cluster)
  await_onboarding platform name w =
      let ((cluster, _), w') =
        env.create_and_wait (access_manager platform (env.getenv "POD_NAMESPACE")) name
          env.purpose_onboarding env.schemes.onboarding onboarding_permissions w in
      (ok cluster, w')

  abbrev pub crd_manager : rt.Cluster → Option rt.Cluster → CrdManager env.Crds rt.Cluster
  crd_manager platform onboarding = record {
    label = env.cluster_label;
    crds = env.crds;
    mapping = (env.purpose_platform, some platform) ∷ (env.purpose_onboarding, onboarding) ∷ [];
  }

  -- A call whose error is logged.
  abbrev pub log_error : Main (Option rt.Error) → Main Unit
  log_error call = call >> pure tt

  -- `if command == "init"`
  unfoldable pub init_command : Flags → rt.Cluster → Main Unit
  init_command flags platform = do
    onboarding ← await_onboarding platform "onboarding-init"
    log_error (env.create_or_update_crds (crd_manager platform onboarding))
    log_error (env.register_gvks platform flags.provider_name service_kind)

  abbrev pub manager_options : Flags → ManagerOptions env.Scheme
  manager_options flags = record {
    scheme = env.schemes.onboarding;
    metrics = metrics_server_options flags;
    webhook = webhook_server_options flags;
    health_probe_bind_address = flags.probe_addr;
    leader_election = flags.enable_leader_election;
    leader_election_id = "232f9e39.openmcp.cloud";
  }

  -- `&controller.OtelCollectorServiceReconciler{…}`
  abbrev pub otel_domain :
      rt.Cluster
      → Option rt.Cluster
      → String
      → ServiceProviderReconciler rt OtelCollectorService ProviderConfig
  otel_domain platform onboarding pod_namespace = otel_reconciler client equal (record {
    onboarding_cluster = onboarding;
    platform_cluster = platform;
    pod_namespace = pod_namespace;
  })

  unfoldable pub wire_sp :
      rt.Cluster → Option rt.Cluster → String → SpBuilder rt OtelCollectorService ProviderConfig
  wire_sp platform onboarding pod_namespace =
      with_cluster_access_reconciler (env.access_reconciler (access_setup platform env.schemes.mcp))
        (with_service_provider_reconciler (otel_domain platform onboarding pod_namespace) (
          with_onboarding_cluster onboarding
            (with_platform_cluster (some platform) (new_sp_reconciler empty_service))))

  unfoldable pub wire_pc :
      Flags → rt.Cluster → env.Channel → PcBuilder rt ProviderConfig env.Channel
  wire_pc flags platform updates = with_update_channel updates (
      pc_with_platform_cluster (some platform) (new_pc_reconciler flags.provider_name empty_config))

  -- From the new manager to the second check.
  unfoldable pub set_up : Flags → rt.Cluster → Option rt.Cluster → String → Main env.Manager
  set_up flags platform onboarding pod_namespace = do
    mgr ← or_exit (env.new_manager onboarding (manager_options flags))
    or_exit (env.add_cluster mgr platform)
    let updates : env.Channel = env.make_channel
    or_exit (
        sp_setup_with_manager (env.complete_sp mgr) (wire_sp platform onboarding pod_namespace)
          "otelcollectorservice" updates)
    or_exit (pc_setup_with_manager (env.complete_pc mgr) (wire_pc flags platform updates))
    or_exit (env.add_healthz mgr)
    or_exit (env.add_readyz mgr)
    pure mgr

  -- `// run (sp controller deployment)`
  unfoldable pub run_command : Flags → rt.Cluster → String → Main Unit
  run_command flags platform pod_namespace = do
    onboarding ← await_onboarding platform "onboarding-run"
    mgr ← set_up flags platform onboarding pod_namespace
    or_exit (env.start mgr)

  abbrev pub pod_namespace : String
  pod_namespace = env.getenv env.env_variable_pod_namespace

  -- From the two parts of the arguments: the command, and the others.
  unfoldable pub execute : String → List String → Main Unit
  execute command rest = do
    flags ← env.parse_flags default_flags rest
    or_exit env.get_logger
    platform ← initialize_platform_cluster
    if text_eq pod_namespace ""
        then raise 1
        else if text_eq command "init"
        then init_command flags platform
        else run_command flags platform pod_namespace

  unfoldable pub main : Main Unit
  main = execute (split_args env.args).0 (split_args env.args).1
