-- ===== src/Entry/Program/Started.antt =====
-- What a run of the program has done when the manager is started.
pub mod Tracked
mod Ready
use service_provider_otel_co.Base.{
  ℕ, String, ◌≡◌, refl, ◌⊎◌, inl, inr, Bool, true, false, text_eq, Result, ok, err, raise, continue,
  ◌>>=◌, if◌then◌else◌, Keeps-bind, Keeps-pure,
}
use service_provider_otel_co.Kube.Client.{Runtime, Client}
use service_provider_otel_co.Api.Service.{OtelCollectorServiceStatus}
use service_provider_otel_co.Entry.Permissions.{onboarding_permissions}
use service_provider_otel_co.Entry.Options.{Flags, default_flags, split_args}
use service_provider_otel_co.Entry.Clusters.{access_manager}
use service_provider_otel_co.Entry.Program.{
  Environment, or_exit, initialize_platform_cluster, init_command, run_command, execute, main,
  pod_namespace,
}
use service_provider_otel_co.Entry.Program.Started.Tracked.{Stage, Tracks, then-at, or_exit-Keeps}
use service_provider_otel_co.Entry.Program.Started.Ready.{IsReady, set_up-IsReady}

module _ {rt : Runtime} (env : Environment rt) where
  module _ {idle : rt.World → Type 0} {done : Stage → env.Manager → rt.World → Type 0}
      (T : Tracks env idle done) (client : rt.Cluster → Client rt)
      (equal : OtelCollectorServiceStatus → OtelCollectorServiceStatus → Bool) where
    -- No manager runs, or all of its stages are set up.
    abbrev Outcome : Result ℕ (Unit {0}) × rt.World → Type 0
    Outcome (x, w) = idle w ⊎ ((m : env.Manager) × ((k : Stage) → done k m w))

    run_command-Outcome :
        (flags : Flags) (platform : rt.Cluster) (ns : String) (w : rt.World)
        → idle w
        → Outcome (run_command env client equal flags platform ns w)
    unfolding run_command
    run_command-Outcome flags platform ns w i =
        let ((onboarding, _), w') =
          env.create_and_wait (access_manager platform (env.getenv "POD_NAMESPACE"))
            "onboarding-run" env.purpose_onboarding env.schemes.onboarding onboarding_permissions
            w in
        go _ _ (
          set_up-IsReady env T client equal flags platform onboarding ns w'
            (T.idle_await _ _ _ _ _ w i))
      where
        go :
            (x : Result ℕ env.Manager) (t : rt.World)
            → IsReady env T client equal (x, t)
            → Outcome (continue x (λ m. or_exit (env.start m)) t)
        go (ok m) t (i, all) = inr (m, λ k. (T.done_start k m).at t (all k))
        go (err n) t i = inl i

    init_command-idle :
        (flags : Flags) (platform : rt.Cluster) (w : rt.World)
        → idle w
        → idle (init_command env client equal flags platform w).1
    unfolding init_command
    init_command-idle flags platform w i =
        (Keeps-bind _ _ (Keeps-bind _ _ (T.idle_crds _) (λ _. Keeps-pure tt))
            λ _. Keeps-bind _ _ (T.idle_register platform _ _) (λ _. Keeps-pure tt)).at
          _ (T.idle_await _ _ _ _ _ w i)

    -- The command is another one than "init", and all stages of a manager are set up.
    abbrev IsUp : String → rt.World → Type 0
    IsUp command w =
        (text_eq command "init" ≡ false) × (m : env.Manager) × ((k : Stage) → done k m w)

    command-Outcome :
        (command : String) (flags : Flags) (platform : rt.Cluster) (w : rt.World) (b : Bool)
        → text_eq command "init" ≡ b
        → idle w
        → let w' =
            ((if b
                then init_command env client equal flags platform
                else run_command env client equal flags platform (pod_namespace env client equal))
              w).1 in
          idle w' ⊎ IsUp command w'
    command-Outcome command flags platform w true e i = inl (init_command-idle flags platform w i)
    command-Outcome command flags platform w false e i =
        elim (run_command-Outcome flags platform (pod_namespace env client equal) w i) [
          | inl h ↦ inl h
          | inr (m, all) ↦ inr (e, m, all)
        ]

    namespace-Outcome :
        (command : String) (flags : Flags) (platform : rt.Cluster) (w : rt.World) (b : Bool)
        → idle w
        → let w' =
            ((if b
                then raise 1
                else if text_eq command "init"
                then init_command env client equal flags platform
                else run_command env client equal flags platform (pod_namespace env client equal))
              w).1 in
          idle w' ⊎ IsUp command w'
    namespace-Outcome command flags platform w true i = inl i
    namespace-Outcome command flags platform w false i =
        command-Outcome command flags platform w _ refl i

    -- Where only `start` runs a manager: a run of the program ends without one, or its command was not
    -- "init", and the platform cluster, both reconcilers and both health checks were set up first. So
    -- an error on the way, and the init job, start nothing.
    pub main_starts :
        (w : rt.World)
        → idle w
        → let w' = (main env client equal w).1 in idle w' ⊎ IsUp (split_args env.args).0 w'
    unfolding main execute initialize_platform_cluster
    main_starts w i =
        let R : rt.World → Type 0 = λ t. idle t ⊎ IsUp (split_args env.args).0 t in
        let stop : (t : rt.World) → idle t → R t = λ t h. inl h in
        then-at idle R (env.parse_flags default_flags (split_args env.args).1) _ w
          (T.idle_flags _ _) i stop
          (λ flags t h.
            then-at idle R (or_exit env.get_logger) _ t (or_exit-Keeps idle _ T.idle_logger) h stop
              (λ _ u h.
                then-at idle R
                  (env.get_config_or_die >>= λ _.
                    or_exit (env.initialize_client env.schemes.platform))
                  _ u (Keeps-bind _ _ T.idle_config (λ _. or_exit-Keeps idle _ (T.idle_client _))) h
                  stop
                  (λ platform v h.
                    namespace-Outcome (split_args env.args).0 flags platform v
                      (text_eq (pod_namespace env client equal) "") h)))
