-- ===== src/Entry/Program/Started/Tracked.antt =====
-- The calls of main, and what they are known to keep and to set up.
use service_provider_otel_co.Base.{
  ℕ, String, ◌≡◌, refl, Option, List, Exec, Result, ok, err, continue, ◌>>=◌, Keeps,
}
use service_provider_otel_co.Kube.Objects.{GroupVersionKind}
use service_provider_otel_co.Kube.Client.{Runtime}
use service_provider_otel_co.Api.Service.{OtelCollectorService}
use service_provider_otel_co.Api.Config.{ProviderConfig}
use service_provider_otel_co.Spruntime.Setup.{SpSetup, PcSetup}
use service_provider_otel_co.Entry.Permissions.{PolicyRule}
use service_provider_otel_co.Entry.Options.{Flags}
use service_provider_otel_co.Entry.Clusters.{AccessManager, CrdManager}
use service_provider_otel_co.Entry.Program.{ManagerOptions, Environment, exit_status, or_exit}

-- What is set up before the manager starts.
pub data Stage : Type 0 where
  platform_added service_provider provider_config healthz readyz : Stage

module _ {rt : Runtime} (env : Environment rt) where
  -- `idle` holds while no manager runs: every call but `start` keeps it. `done k m` holds once the stage
  -- `k` of the manager `m` is set up, and every later call keeps it.
  pub record Tracks (idle : rt.World → Type 0) (done : Stage → env.Manager → rt.World → Type 0)
      : Type 0 where
    pub idle_flags : (d : Flags) (args : List String) → Keeps idle (env.parse_flags d args)
    pub idle_logger : Keeps idle env.get_logger
    pub idle_config : Keeps idle env.get_config_or_die
    pub idle_client : (x : env.Scheme) → Keeps idle (env.initialize_client x)
    pub idle_await :
        (a : AccessManager rt.Cluster) (name purpose : String) (x : env.Scheme)
        (rules : List PolicyRule) (w : rt.World)
        → idle w
        → idle (env.create_and_wait a name purpose x rules w).1
    pub idle_crds : (c : CrdManager env.Crds rt.Cluster) → Keeps idle (env.create_or_update_crds c)
    pub idle_register :
        (platform : rt.Cluster) (name : String) (k : GroupVersionKind)
        → Keeps idle (env.register_gvks platform name k)
    pub idle_manager :
        (c : Option rt.Cluster) (o : ManagerOptions env.Scheme) → Keeps idle (env.new_manager c o)
    pub idle_added : (m : env.Manager) (c : rt.Cluster) → Keeps idle (env.add_cluster m c)
    pub idle_sp :
        (m : env.Manager) (g : SpSetup rt OtelCollectorService ProviderConfig env.Channel)
        → Keeps idle (env.complete_sp m g)
    pub idle_pc :
        (m : env.Manager) (g : PcSetup rt ProviderConfig env.Channel)
        → Keeps idle (env.complete_pc m g)
    pub idle_healthz : (m : env.Manager) → Keeps idle (env.add_healthz m)
    pub idle_readyz : (m : env.Manager) → Keeps idle (env.add_readyz m)
    pub added :
        (m : env.Manager) (c : rt.Cluster) (w : rt.World)
        → (env.add_cluster m c w).0 ≡ ok tt
        → done platform_added m (env.add_cluster m c w).1
    pub sp :
        (m : env.Manager) (g : SpSetup rt OtelCollectorService ProviderConfig env.Channel)
        (w : rt.World)
        → (env.complete_sp m g w).0 ≡ ok tt
        → done service_provider m (env.complete_sp m g w).1
    pub pc :
        (m : env.Manager) (g : PcSetup rt ProviderConfig env.Channel) (w : rt.World)
        → (env.complete_pc m g w).0 ≡ ok tt
        → done provider_config m (env.complete_pc m g w).1
    pub health :
        (m : env.Manager) (w : rt.World)
        → (env.add_healthz m w).0 ≡ ok tt
        → done healthz m (env.add_healthz m w).1
    pub ready :
        (m : env.Manager) (w : rt.World)
        → (env.add_readyz m w).0 ≡ ok tt
        → done readyz m (env.add_readyz m w).1
    pub done_sp :
        (k : Stage) (m : env.Manager)
        (g : SpSetup rt OtelCollectorService ProviderConfig env.Channel)
        → Keeps (done k m) (env.complete_sp m g)
    pub done_pc :
        (k : Stage) (m : env.Manager) (g : PcSetup rt ProviderConfig env.Channel)
        → Keeps (done k m) (env.complete_pc m g)
    pub done_healthz : (k : Stage) (m : env.Manager) → Keeps (done k m) (env.add_healthz m)
    pub done_readyz : (k : Stage) (m : env.Manager) → Keeps (done k m) (env.add_readyz m)
    pub done_start : (k : Stage) (m : env.Manager) → Keeps (done k m) (env.start m)

module _ {E S : Type 0} where
  -- A call whose error ends the program, and what follows it.
  pub or_exit-bind :
      {A B : Type 0} (Q : Result ℕ B × S → Type 0) (call : Exec E S A) (f : A → Exec ℕ S B) (w : S)
      → ((a : A) → (call w).0 ≡ ok a → Q (f a (call w).1))
      → Q (err 1, (call w).1)
      → Q ((or_exit call >>= f) w)
  or_exit-bind {A} {B} Q call f w good bad = go (call w).0 (call w).1 good bad
    where
      go :
          (x : Result E A) (t : S)
          → ((a : A) → x ≡ ok a → Q (f a t))
          → Q (err 1, t)
          → Q (continue (exit_status x) f t)
      go (ok a) t good bad = good a refl
      go (err e) t good bad = bad

  -- A step that keeps `P`, and what follows it.
  pub then-at :
      {A B : Type 0} (P R : S → Type 0) (m : Exec E S A) (f : A → Exec E S B) (w : S)
      → Keeps P m
      → P w
      → ((t : S) → P t → R t)
      → ((a : A) (t : S) → P t → R (f a t).1)
      → R ((m >>= f) w).1
  then-at {A} {B} P R m f w k p stop next = go (m w).0 (m w).1 (k.at w p)
    where
      go : (x : Result E A) (t : S) → P t → R (continue x f t).1
      go (ok a) t p = next a t p
      go (err n) t p = stop t p

  pub or_exit-Keeps :
      {A : Type 0} (P : S → Type 0) (m : Exec E S A) → Keeps P m → Keeps P (or_exit m)
  or_exit-Keeps P m k = record { at = λ w p. k.at w p }
