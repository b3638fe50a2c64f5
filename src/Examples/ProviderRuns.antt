-- ===== src/Examples/ProviderRuns.antt =====
-- The theorems of the generic reconcilers on the in-memory clusters.
use service_provider_otel_co.Base.{
  ◌≡◌, refl, ◌⊎◌, inl, inr, true, false, Option, none, some, is_some, List, [], ◌∷◌, is_positive,
  ok, err, Gives, Keeps, pos, String, arith, Bool-cases, text_eq, text_eq_iff, if◌then◌else◌,
}
use service_provider_otel_co.Kube.Objects.{
  no_kind, ObjectKey, CtrlResult, Condition, condition_true, condition_false,
}
use service_provider_otel_co.Kube.Client.{Call}
use service_provider_otel_co.Api.Service.{OtelCollectorService, otel_api}
use service_provider_otel_co.Api.Service.Status.{otel_api-StatusLaws}
use service_provider_otel_co.Api.Config.{ProviderConfig, otel_configs, poll_interval}
use service_provider_otel_co.Spruntime.Api.{ClusterContext}
use service_provider_otel_co.Spruntime.Access.{
  clusters, requeues, no_requeue, add_clusters, or_missing, access_key,
}
use service_provider_otel_co.Spruntime.Access.Granted.{HasAccess, Grants, clusters-Grants}
use service_provider_otel_co.Spruntime.Access.Frame.{AccessKeeps}
use service_provider_otel_co.Spruntime.Status.{status_progressing, status_ready, status_terminating}
use service_provider_otel_co.Spruntime.Status.Reported.{
  find_condition, SetsConditions, Reports, statuses-Report,
}
use service_provider_otel_co.Spruntime.ConfigEvents
use service_provider_otel_co.Spruntime.ConfigEvents.Published.{
  handle_all, reconcile_published, live,
}
use service_provider_otel_co.Spruntime.Reconciler.{
  SpReconciler, delete, reconcile, found_or_gone, reconcile_object, core, update_status, report,
  create_or_update, set_up_and_create, or_poll,
}
use service_provider_otel_co.Spruntime.Reconciler.Order.{In, Cleans, delete_order}
use service_provider_otel_co.Spruntime.Reconciler.Outcome.{reconcile-requeues}
use service_provider_otel_co.Spruntime.Reconciler.Granted.{GrantedKeeps, reconcile_granted}
use service_provider_otel_co.Examples.Cluster.{Fault, World, Site, runtime, set_condition}
use service_provider_otel_co.Examples.Data.{svcobj, config, world, equal}
use service_provider_otel_co.Examples.Tracked.{
  marked, tracking, IsRevoked, IsHeld, tracking-Held, tracking-Shows, tracking-Sound,
}
use service_provider_otel_co.Examples.Provider.{provider, access, onboarding, sets}

abbrev pub request : ObjectKey
request = record { namespace = "project"; name = "cp" }

-- Every call of the example's access provider leaves the clusters alone.
pub access-Keeps : (P : World → Type 0) → AccessKeeps access P
access-Keeps P = record {
  keeps_mcp_cluster = λ req. record { at = λ w h. h };
  keeps_mcp_request = λ req w h. h;
  keeps_workload_cluster = λ req. record { at = λ w h. h };
  keeps_workload_request = λ req w h. h;
  keeps_reconcile = λ req. record { at = λ w h. h };
}

clusters-Grants_example : Gives (Grants false) (clusters access false request world).0
clusters-Grants_example = clusters-Grants access request false world

-- No deployment is on the control plane.
abbrev IsClean : World → Type 0
IsClean w = w.mcp.deployment_table ≡ []

abbrev tracked : SpReconciler runtime (otel_api equal) otel_configs
tracked = record provider { cluster_access = tracking }

tracked-Cleans : Cleans tracked svcobj config (HasAccess false) IsHeld IsRevoked IsClean
tracked-Cleans = record {
  access = tracking-Held;
  access_sound = tracking-Sound IsClean;
  clusters_fit = λ req w. clusters-Grants tracking req false w;
  patch_held = record { at = λ s h. refl };
  patch_sound = record { at = λ s h. h };
  delete_held = λ ctx fit. record { at = λ s h. h };
  delete_sound = λ ctx fit. record { at = λ s h _. refl };
  patch_cleaned = record { at = λ s h. h };
  update_cleaned = record { at = λ s h. h };
  access_cleaned = λ req. record { at = λ w h. h };
  delete_cleans = λ ctx w res fit e go_on. refl;
  mcp_shows = tracking-Shows request;
  workload_shows = λ e. absurd (cc e);
}

-- The access request is in deletion, so that the domain is not called.
abbrev leaving : World
leaving = record world { request = some marked }

delete_order_example :
    let w = (delete tracked config (record { obj = svcobj; world = leaving })).1.world in
    (IsHeld w ⊎ IsClean w) × (IsRevoked w → IsClean w)
delete_order_example = delete_order tracked tracked-Cleans leaving refl (λ _. refl)

reconcile-ok :
    (reconcile provider request world).0
    ≡ ok (record { requeue = false; requeue_after = pos 60000000000 })
unfolding reconcile found_or_gone reconcile_object core update_status report create_or_update
    set_up_and_create clusters add_clusters or_missing access_key or_poll poll_interval
reconcile-ok = refl

config-polls :
    (pc : ProviderConfig)
    → provider.provider_config ≡ some pc
    → is_positive (poll_interval pc) ≡ true
unfolding poll_interval
config-polls pc h = cc

reconcile-requeues_example :
    let res : CtrlResult = record { requeue = false; requeue_after = pos 60000000000 } in
    (requeues res ≡ true)
    ⊎ ((e : Fault) × ((onboarding.get request world).0 ≡ err e)
        × (runtime.is_not_found e ≡ true)
        × (res ≡ no_requeue))
reconcile-requeues_example =
    reconcile-requeues provider request world
      (record { requeue = false; requeue_after = pos 60000000000 }) config-polls reconcile-ok

-- What is on the platform.
abbrev pub IsIntact : World → Type 0
IsIntact w = w.platform ≡ world.platform

sets-IsIntact : (x : Option Site) (w : World) → is_some x ≡ true → IsIntact w → IsIntact (sets x w)
sets-IsIntact none w has h = absurd (cc has)
sets-IsIntact (some _) w has h = h

create_or_update-IsIntact :
    (pc : ProviderConfig) (ctx : ClusterContext runtime)
    → HasAccess false ctx
    → Keeps
        (In runtime OtelCollectorService IsIntact)
        (provider.service_provider.create_or_update pc ctx)
create_or_update-IsIntact pc ctx has = record {
  at = λ s h. sets-IsIntact ctx.mcp_cluster s.world has.mcp h;
}

pub provider-GrantedKeeps :
    (c : Option ProviderConfig) → GrantedKeeps (record provider { provider_config = c }) IsIntact
provider-GrantedKeeps c = record {
  access = access-Keeps IsIntact;
  revoke = λ req. record { at = λ w h. h };
  keeps_get = λ req. record { at = λ w h. h };
  keeps_set = λ f. record { at = λ s h. h };
  keeps_update = record { at = λ s h. h };
  keeps_patch = λ old. record { at = λ s h. h };
  keeps_create_or_update = λ pc ctx is has. create_or_update-IsIntact pc ctx has;
  keeps_delete = λ pc ctx is has. record { at = λ s h. h };
}

reconcile_granted_example : IsIntact (reconcile provider request world).1
reconcile_granted_example =
    reconcile_granted provider (provider-GrantedKeeps (some config)) request world refl

find-set_condition :
    (cs : List Condition) (c : Condition) (k : String)
    → find_condition k (set_condition cs c)
      ≡ (if text_eq c.kind k then some c else find_condition k cs)
find-set_condition [] c k = refl
find-set_condition (d ∷ ds) c k = elim (Bool-cases (text_eq d.kind c.kind)) [
  | inl e ↦ rw e (ground (arith, e, text_eq_iff d.kind c.kind))
  | inr e ↦ rw e (
      ground (
        arith,
        find-set_condition ds c k,
        e,
        text_eq_iff d.kind k,
        text_eq_iff c.kind k,
        text_eq_iff d.kind c.kind,
      ))
]

set_condition-SetsConditions : SetsConditions runtime
set_condition-SetsConditions = record { find-set = find-set_condition }

statuses-Report_example :
    Reports set_condition-SetsConditions
      (otel_api-StatusLaws equal)
      condition_false
      "Reconciling"
      "waiting"
      "Progressing"
      svcobj
      (status_progressing runtime (otel_api equal) "Reconciling" "waiting" svcobj)
    × Reports set_condition-SetsConditions
        (otel_api-StatusLaws equal)
        condition_true
        "ReconcileSuccess"
        "Domain Service is ready"
        "Ready"
        svcobj
        (status_ready runtime (otel_api equal) svcobj)
    × Reports set_condition-SetsConditions
        (otel_api-StatusLaws equal)
        condition_false
        "Terminating"
        "Cleanup in progress"
        "Terminating"
        svcobj
        (status_terminating runtime (otel_api equal) svcobj)
statuses-Report_example =
    statuses-Report set_condition-SetsConditions (otel_api-StatusLaws equal) svcobj "Reconciling"
      "waiting"

abbrev get_config : ObjectKey → Call runtime ProviderConfig
get_config req w = (ok config, w)

reconcile_published_example :
    (handle_all otel_configs no_kind onboarding
      (service_provider_otel_co.Spruntime.ConfigEvents.reconcile {rt = runtime} otel_configs
        get_config request
        (record { obj = some config ∷ none ∷ []; world = world })).1.obj
      (record { obj = none; world = world })).obj
    ≡ live otel_configs (get_config request world).0
reconcile_published_example =
    reconcile_published otel_configs no_kind onboarding get_config request
      (record { obj = some config ∷ none ∷ []; world = world })
      (record { obj = none; world = world })
