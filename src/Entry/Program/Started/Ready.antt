-- ===== src/Entry/Program/Started/Ready.antt =====
-- set_up (cmd/service-provider-otel-collector/main.go): the stages that are set up before the manager starts.
use service_provider_otel_co.Base.{
  ℕ, String, ◌≡◌, inl, inr, Bool, Option, Exec, Result, ok, err, pure, ◌>>=◌, Keeps, Option-cases,
  arith,
}
use service_provider_otel_co.Kube.Client.{Runtime, Client}
use service_provider_otel_co.Api.Service.{OtelCollectorService, OtelCollectorServiceStatus}
use service_provider_otel_co.Api.Config.{ProviderConfig}
use service_provider_otel_co.Spruntime.Builders.{SpBuilder, PcBuilder}
use service_provider_otel_co.Spruntime.Setup.{PcSetup, sp_setup_with_manager, pc_setup_with_manager}
use service_provider_otel_co.Entry.Options.{Flags}
use service_provider_otel_co.Entry.Program.{
  Environment, or_exit, set_up, manager_options, wire_sp, wire_pc,
}
use service_provider_otel_co.Entry.Program.Started.Tracked.{
  Stage, platform_added, service_provider, provider_config, healthz, readyz, Tracks, or_exit-bind,
}

module _ {rt : Runtime} (env : Environment rt) where
  module _ {idle : rt.World → Type 0} {done : Stage → env.Manager → rt.World → Type 0}
      (T : Tracks env idle done) (client : rt.Cluster → Client rt)
      (equal : OtelCollectorServiceStatus → OtelCollectorServiceStatus → Bool) where
    -- After `set_up`.
    abbrev pub IsReady : Result ℕ env.Manager × rt.World → Type 0
    IsReady (ok m, w) = idle w × ((k : Stage) → done k m w)
    IsReady (err n, w) = idle w

    abbrev Sp : Type 0
    Sp = SpBuilder rt OtelCollectorService ProviderConfig

    -- `set_up` from its last calls on.
    abbrev from_readyz : env.Manager → Exec ℕ rt.World env.Manager
    from_readyz m = or_exit (env.add_readyz m) >>= λ _. pure m

    abbrev from_healthz : env.Manager → Exec ℕ rt.World env.Manager
    from_healthz m = or_exit (env.add_healthz m) >>= λ _. from_readyz m

    abbrev from_pc :
        env.Manager → PcBuilder rt ProviderConfig env.Channel → Exec ℕ rt.World env.Manager
    from_pc m r = or_exit (pc_setup_with_manager (env.complete_pc m) r) >>= λ _. from_healthz m

    abbrev from_sp :
        env.Manager → Sp → PcBuilder rt ProviderConfig env.Channel → Exec ℕ rt.World env.Manager
    from_sp m s r =
        or_exit
          (sp_setup_with_manager (env.complete_sp m) s "otelcollectorservice" env.make_channel)
        >>= λ _. from_pc m r

    readyz-IsReady :
        (m : env.Manager) (w : rt.World)
        → idle w
        → done platform_added m w
        → done service_provider m w
        → done provider_config m w
        → done healthz m w
        → IsReady (from_readyz m w)
    readyz-IsReady m w i a s p h =
        or_exit-bind IsReady (env.add_readyz m) (λ _. pure m) w
          (λ _ e. (
            (T.idle_readyz m).at w i,
            stages ((T.done_readyz _ m).at w a) ((T.done_readyz _ m).at w s)
                ((T.done_readyz _ m).at w p) ((T.done_readyz _ m).at w h) (T.ready m w e),
          ))
          ((T.idle_readyz m).at w i)
      where
        stages :
            {t : rt.World}
            → done platform_added m t
            → done service_provider m t
            → done provider_config m t
            → done healthz m t
            → done readyz m t
            → (k : Stage) → done k m t
        stages a s p h r platform_added = a
        stages a s p h r service_provider = s
        stages a s p h r provider_config = p
        stages a s p h r healthz = h
        stages a s p h r readyz = r

    healthz-IsReady :
        (m : env.Manager) (w : rt.World)
        → idle w
        → done platform_added m w
        → done service_provider m w
        → done provider_config m w
        → IsReady (from_healthz m w)
    healthz-IsReady m w i a s p =
        or_exit-bind IsReady (env.add_healthz m) (λ _. from_readyz m) w
          (λ _ e.
            readyz-IsReady m _ ((T.idle_healthz m).at w i) ((T.done_healthz _ m).at w a)
              ((T.done_healthz _ m).at w s) ((T.done_healthz _ m).at w p) (T.health m w e))
          ((T.idle_healthz m).at w i)

    pc-Keeps :
        {P : rt.World → Type 0} (m : env.Manager) (r : PcBuilder rt ProviderConfig env.Channel)
        → ((g : PcSetup rt ProviderConfig env.Channel) → Keeps P (env.complete_pc m g))
        → Keeps P (pc_setup_with_manager (env.complete_pc m) r)
    pc-Keeps m r keeps = elim (Option-cases r.platform_cluster) [
      | inl e ↦ rw e (record { at = λ w h. h })
      | inr (c, e) ↦ rw e (keeps _)
    ]

    pc-done :
        (m : env.Manager) (r : PcBuilder rt ProviderConfig env.Channel) (w : rt.World)
        → (pc_setup_with_manager (env.complete_pc m) r w).0 ≡ ok tt
        → done provider_config m (pc_setup_with_manager (env.complete_pc m) r w).1
    pc-done m r w h = elim (Option-cases r.platform_cluster) [
      | inl e ↦ absurd (ground (arith, e, h))
      | inr (c, e) ↦ rw e (T.pc m _ w (rw e at h))
    ]

    pc-IsReady :
        (m : env.Manager) (r : PcBuilder rt ProviderConfig env.Channel) (w : rt.World)
        → idle w
        → done platform_added m w
        → done service_provider m w
        → IsReady (from_pc m r w)
    pc-IsReady m r w i a s =
        or_exit-bind IsReady (pc_setup_with_manager (env.complete_pc m) r) (λ _. from_healthz m) w
          (λ _ e.
            healthz-IsReady m _ ((pc-Keeps m r (T.idle_pc m)).at w i)
              ((pc-Keeps m r (T.done_pc _ m)).at w a) ((pc-Keeps m r (T.done_pc _ m)).at w s)
              (pc-done m r w e))
          ((pc-Keeps m r (T.idle_pc m)).at w i)

    sp-IsReady :
        (m : env.Manager) (s : Sp) (r : PcBuilder rt ProviderConfig env.Channel) (w : rt.World)
        → idle w
        → done platform_added m w
        → IsReady (from_sp m s r w)
    sp-IsReady m s r w i a =
        or_exit-bind IsReady
          (sp_setup_with_manager (env.complete_sp m) s "otelcollectorservice" env.make_channel)
          (λ _. from_pc m r) w
          (λ _ e.
            pc-IsReady m r _ ((T.idle_sp m _).at w i) ((T.done_sp _ m _).at w a) (T.sp m _ w e))
          ((T.idle_sp m _).at w i)

    added-IsReady :
        (m : env.Manager) (c : rt.Cluster) (s : Sp) (r : PcBuilder rt ProviderConfig env.Channel)
        (w : rt.World)
        → idle w
        → IsReady ((or_exit (env.add_cluster m c) >>= λ _. from_sp m s r) w)
    added-IsReady m c s r w i =
        or_exit-bind IsReady (env.add_cluster m c) (λ _. from_sp m s r) w
          (λ _ e. sp-IsReady m s r _ ((T.idle_added m c).at w i) (T.added m c w e))
          ((T.idle_added m c).at w i)

    pub set_up-IsReady :
        (flags : Flags) (platform : rt.Cluster) (onboarding : Option rt.Cluster) (ns : String)
        (w : rt.World)
        → idle w
        → IsReady (set_up env client equal flags platform onboarding ns w)
    unfolding set_up
    set_up-IsReady flags platform onboarding ns w i =
        or_exit-bind IsReady (env.new_manager onboarding (manager_options env client equal flags)) _
          w
          (λ m e.
            added-IsReady m platform (wire_sp env client equal platform onboarding ns)
              (wire_pc env client equal flags platform env.make_channel) _
              ((T.idle_manager onboarding _).at w i))
          ((T.idle_manager onboarding _).at w i)
