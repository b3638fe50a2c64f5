-- ===== src/Examples/EntryRuns.antt =====
-- A run of the program whose world is the list of the calls that it made, the last one first.
use service_provider_otel_co.Base.{
  String, ◌≡◌, ◌≢◌, refl, ◌⊎◌, Bool, true, false, ◌||◌, none, some, List, [], ◌∷◌, arith, text_eq,
  Keeps, Exec, Option, Result, ok, err, if◌then◌else◌,
}
use service_provider_otel_co.Kube.Objects.{ObjectKey, GroupVersionKind}
use service_provider_otel_co.Kube.Client.{Runtime, Call, Client, Run}
use service_provider_otel_co.Spruntime.Access.{no_requeue}
use service_provider_otel_co.Spruntime.Api.{ClusterAccessProvider, ObjectClient}
use service_provider_otel_co.Entry.Options.{default_flags, split_args}
use service_provider_otel_co.Entry.Program.{Environment, main, initialize_platform_cluster}
use service_provider_otel_co.Entry.Program.Started.{main_starts}
use service_provider_otel_co.Entry.Program.Started.Tracked.{
  Stage, platform_added, service_provider, provider_config, healthz, readyz, Tracks,
}
use service_provider_otel_co.Entry.Program.Wired.{built_sp, collector}
use service_provider_otel_co.Entry.Program.Updates.{main_events-lost}
use service_provider_otel_co.Spruntime.ConfigEvents.{map_event}
use service_provider_otel_co.Api.Config.{ProviderConfig, otel_configs}
use service_provider_otel_co.Kube.Objects.{no_kind}
use service_provider_otel_co.Api.Service.{OtelCollectorService}
use service_provider_otel_co.Entry.Program.Init.{main_init}
use service_provider_otel_co.Controller.Reconciler.{create_or_update, delete}
use service_provider_otel_co.Entry.Permissions.{mcp_permissions, restrict}
use service_provider_otel_co.Entry.Permissions.Covered.{permissions-cover}
use service_provider_otel_co.Entry.Permissions.Least.{mcp_permissions-protect}
use service_provider_otel_co.Examples.Cluster.{
  Fault, missing, plain, client_at, Site, mcp_site, platform_site, runtime,
}
use service_provider_otel_co.Examples.Data.{equal, reconciler, config, context, start, svcobj}

abbrev logging : Runtime
logging = record {
  Error = runtime.Error;
  World = List String;
  is_not_found = runtime.is_not_found;
  new = runtime.new;
  wrap = runtime.wrap;
  quote = runtime.quote;
  set_status_condition = runtime.set_status_condition;
  add_finalizer = runtime.add_finalizer;
  remove_finalizer = runtime.remove_finalizer;
  Cluster = Site;
  nil_pointer = runtime.nil_pointer;
  is_panic = runtime.is_panic;
  sha256_sum = runtime.sha256_sum;
}

abbrev logs : {E A : Type 0} → String → A → Exec E (List String) A
logs name a w = (ok a, name ∷ w)

-- Main makes no call by the clients; it hands them on.
abbrev unused : {A : Type 0} → Call logging A
unused w = (err missing, w)

abbrev client : Site → Client logging
client site = record {
  get = λ k a. unused;
  create = λ k o. unused;
  update = λ k o. unused;
  delete = λ k o. unused;
  create_or_update = λ k o f. unused;
}

abbrev access : ClusterAccessProvider logging
access = record {
  mcp_cluster = λ req w. (ok (some mcp_site), w);
  mcp_access_request = λ req w. ((none, none), w);
  workload_cluster = λ req w. (ok none, w);
  workload_access_request = λ req w. ((none, none), w);
  reconcile = λ req w. (ok no_requeue, w);
  reconcile_delete = λ req w. (ok no_requeue, w);
}

abbrev stage_name : Stage → String
stage_name platform_added = "platform added"
stage_name service_provider = "service provider"
stage_name provider_config = "provider config"
stage_name healthz = "healthz"
stage_name readyz = "readyz"

-- The onboarding cluster is not to be had, and the program goes on.
abbrev environment : String → Environment logging
environment command = record {
  Manager = Unit;
  Scheme = String;
  Channel = Unit;
  schemes = record { platform = "platform"; onboarding = "onboarding"; mcp = "mcp" };
  args = "provider" ∷ command ∷ [];
  parse_flags = λ flags args. logs "flags" flags;
  get_logger = logs "logger" tt;
  get_config_or_die = logs "config" tt;
  initialize_client = λ scheme. logs "client" platform_site;
  getenv = λ name. "openmcp-system";
  env_variable_pod_namespace = "POD_NAMESPACE";
  Crds = List String;
  crds = "otelcollectorservices" ∷ "providerconfigs" ∷ [];
  cluster_label = "openmcp.cloud/cluster";
  purpose_platform = "platform";
  purpose_onboarding = "onboarding";
  create_and_wait = λ manager name purpose scheme rules w. ((none, some missing), "await" ∷ w);
  create_or_update_crds = λ manager. logs "crds" (some missing);
  register_gvks = λ platform name kind. logs "gvks" (some missing);
  new_manager = λ onboarding options. logs "manager" tt;
  add_cluster = λ m c. logs (stage_name platform_added) tt;
  make_channel = tt;
  access_reconciler = λ setup. access;
  complete_sp = λ m g. logs (stage_name service_provider) tt;
  complete_pc = λ m g. logs (stage_name provider_config) tt;
  add_healthz = λ m. logs (stage_name healthz) tt;
  add_readyz = λ m. logs (stage_name readyz) tt;
  start = λ m. logs "start" tt;
}

abbrev has : String → List String → Bool
has name [] = false
has name (x ∷ xs) = text_eq x name || has name xs

abbrev IsIdle : List String → Type 0
IsIdle w = has "start" w ≡ false

abbrev IsDone : Stage → Unit {0} → List String → Type 0
IsDone k m w = has (stage_name k) w ≡ true

has_more : (x y : String) (w : List String) → has y w ≡ true → has y (x ∷ w) ≡ true
has_more x y w h = ground arith

logs-IsDone :
    (x : String) (k : Stage) → Keeps (IsDone k tt) (logs {E = logging.Error} {A = Unit {0}} x tt)
logs-IsDone x k = record { at = λ w h. has_more x (stage_name k) w h }

environment-Tracks : (command : String) → Tracks (environment command) IsIdle IsDone
environment-Tracks command = record {
  idle_flags = λ d args. record { at = λ w h. h };
  idle_logger = record { at = λ w h. h };
  idle_config = record { at = λ w h. h };
  idle_client = λ x. record { at = λ w h. h };
  idle_await = λ a name purpose x rules w h. h;
  idle_crds = λ c. record { at = λ w h. h };
  idle_register = λ platform name k. record { at = λ w h. h };
  idle_manager = λ c o. record { at = λ w h. h };
  idle_added = λ m c. record { at = λ w h. h };
  idle_sp = λ m g. record { at = λ w h. h };
  idle_pc = λ m g. record { at = λ w h. h };
  idle_healthz = λ m. record { at = λ w h. h };
  idle_readyz = λ m. record { at = λ w h. h };
  added = λ m c w e. refl;
  sp = λ m g w e. refl;
  pc = λ m g w e. refl;
  health = λ m w e. refl;
  ready = λ m w e. refl;
  done_sp = λ k m g. logs-IsDone _ k;
  done_pc = λ k m g. logs-IsDone _ k;
  done_healthz = λ k m. logs-IsDone _ k;
  done_readyz = λ k m. logs-IsDone _ k;
  done_start = λ k m. logs-IsDone _ k;
}

main_starts_example :
    let w' = (main (environment "run") client equal []).1 in
    IsIdle w' ⊎ ((text_eq "run" "init" ≡ false) × (m : Unit {0}) × ((k : Stage) → IsDone k m w'))
unfolding split_args
main_starts_example =
    main_starts (environment "run") (environment-Tracks "run") client equal [] refl

main_init_example : (main (environment "init") client equal []).0 ≡ ok tt
unfolding split_args initialize_platform_cluster
main_init_example =
    main_init (environment "init") client equal [] {flags = default_flags}
      {platform = platform_site} {crds_error = some missing} {gvks_error = some missing} refl refl
      refl refl refl refl refl

-- The control plane's client with the requested permissions, and the platform's as it is.
abbrev granted : Site → Client runtime
granted mcp_site = restrict mcp_permissions (plain "forbidden") (client_at mcp_site)
granted platform_site = client_at platform_site

permissions-cover_example :
    (create_or_update granted equal reconciler config context start
      ≡ create_or_update client_at equal reconciler config context start)
    × (delete granted equal reconciler config context start
        ≡ delete client_at equal reconciler config context start)
permissions-cover_example =
    permissions-cover client_at granted equal reconciler mcp_site (plain "forbidden") refl refl
      config context refl start

mcp_permissions-protect_example :
    let verb : String = "delete" in
    let group : String = "" in
    let resource : String = "services" in
    ((group ≡ "") ⊎ (group ≡ "apps") ⊎ (group ≡ "apiextensions.k8s.io"))
    × ((verb ≢ "delete") ⊎ (resource ≡ "services") ⊎ (resource ≡ "deployments"))
    × ((resource ≢ "configmaps") ⊎ (verb ≡ "get"))
mcp_permissions-protect_example = mcp_permissions-protect "delete" "" "services" refl

abbrev listing : GroupVersionKind → List String → Result Fault (List ObjectKey) × List String
listing gvk w =
    if text_eq gvk.kind "" then (err (plain "no kind"), w) else (ok (svcobj.metadata.key ∷ []), w)

-- The onboarding cluster has one object, and lists by a kind only.
abbrev objects : Site → ObjectClient logging OtelCollectorService
objects site = record {
  get = λ key w. (ok svcobj, w);
  create_or_update = λ f s. (ok tt, s);
  update = λ s. (ok tt, s);
  patch_status = λ old s. (ok tt, s);
  list = listing;
}

-- The config was not cached before.
abbrev nothing_cached : Run logging (Option ProviderConfig)
nothing_cached = record { obj = none; world = [] }

main_events-lost_example :
    let gvk : GroupVersionKind = record {
      group = "otelcollector.services.openmcp.cloud";
      version = "v1alpha1";
      kind = "OtelCollectorService";
    } in
    let program = environment "run" in
    let site : ObjectClient logging OtelCollectorService = objects mcp_site in
    (built_sp program client equal objects platform_site "openmcp-system" (some mcp_site)
      ≡ some (collector program client equal objects platform_site "openmcp-system" mcp_site))
    × ((map_event {rt = logging} otel_configs no_kind site (some config) nothing_cached).0 ≡ ok [])
    × ((map_event {rt = logging} otel_configs no_kind site (some config) nothing_cached).1.obj
        ≡ some config)
    × ((map_event {rt = logging} otel_configs gvk site (some config) nothing_cached).0
        ≡ ok (svcobj.metadata.key ∷ []))
main_events-lost_example =
    main_events-lost (environment "run") client equal objects platform_site "openmcp-system"
      mcp_site (λ w. (plain "no kind", refl)) (some config) nothing_cached _ refl
