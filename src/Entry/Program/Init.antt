-- ===== src/Entry/Program/Init.antt =====
-- The exit status of the init job.
use service_provider_otel_co.Base.{◌≡◌, Bool, true, false, Option, arith, text_eq, ok}
use service_provider_otel_co.Kube.Client.{Runtime, Client}
use service_provider_otel_co.Api.Service.{OtelCollectorServiceStatus}
use service_provider_otel_co.Entry.Options.{Flags, default_flags, split_args}
use service_provider_otel_co.Entry.Clusters.{access_manager}
use service_provider_otel_co.Entry.Permissions.{onboarding_permissions}
use service_provider_otel_co.Entry.Program.{
  crd_manager, service_kind, Environment, initialize_platform_cluster, init_command, execute, main,
  pod_namespace,
}

-- Once the flags are read and the platform cluster and the pod's namespace are at hand, and where the call about the
-- CRDs, with the onboarding cluster that the run has got or with none, and the registration that the run makes
-- return, the init job exits with status 0, whatever errors the three calls return.
pub main_init :
    {rt : Runtime} (env : Environment rt) (client : rt.Cluster → Client rt)
    (equal : OtelCollectorServiceStatus → OtelCollectorServiceStatus → Bool) (w : rt.World)
    {flags : Flags} {platform : rt.Cluster} {crds_error gvks_error : Option rt.Error}
    → text_eq (split_args env.args).0 "init" ≡ true
    → text_eq (pod_namespace env client equal) "" ≡ false
    → let (read, t₁) = env.parse_flags default_flags (split_args env.args).1 w in
      let (logger, t₂) = env.get_logger t₁ in
      let (cluster, t₃) = initialize_platform_cluster env client equal t₂ in
      let ((onboarding, _), t₄) =
        env.create_and_wait
          (access_manager platform (env.getenv "POD_NAMESPACE"))
          "onboarding-init"
          env.purpose_onboarding
          env.schemes.onboarding
          onboarding_permissions
          t₃ in
      let (crds, t₅) =
        env.create_or_update_crds (crd_manager env client equal platform onboarding) t₄ in
      let (gvks, _) =
        env.register_gvks platform flags.provider_name (service_kind env client equal) t₅ in
      read ≡ ok flags
      → logger ≡ ok tt
      → cluster ≡ ok platform
      → crds ≡ ok crds_error
      → gvks ≡ ok gvks_error
      → (main env client equal w).0 ≡ ok tt
unfolding main execute init_command
main_init env client equal w init named parsed logger cluster crds gvks =
    ground (arith, parsed, logger, cluster, init, named, crds, gvks)
