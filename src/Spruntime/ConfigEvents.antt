-- ===== src/Spruntime/ConfigEvents.antt =====
-- pkg/spruntime/pcreconciler.go, and the handler of its events in SetupWithManager of
-- pkg/spruntime/spreconciler.go. A notification is the config it carries, or `none` for a nil object.
pub mod Published
use service_provider_otel_co.Base.{
  Option, none, some, List, [], ◌∷◌, ◌++◌, Result, ok, err, try, pure, raise, ◌>>=◌, ◌>>◌,
  if◌then◌else◌,
}
use service_provider_otel_co.Kube.Objects.{ObjectKey, CtrlResult, GroupVersionKind}
use service_provider_otel_co.Kube.Client.{Runtime, Call, Step, calling, modify}
use service_provider_otel_co.Spruntime.Api.{ProviderConfigApi, ObjectClient}
use service_provider_otel_co.Spruntime.Access.{no_requeue}

-- The channel is the list of what was sent on it.
abbrev pub Channel : ProviderConfigApi → Type 0
Channel pcs = List (Option pcs.Config)

module _ {rt : Runtime} (pcs : ProviderConfigApi) where
  open pcs use {Config}

  abbrev send : Option Config → Step rt (Channel pcs) Unit
  send notify = modify (λ sent. sent ++ notify ∷ [])

  unfoldable pub send_found : Result rt.Error Config → Step rt (Channel pcs) CtrlResult
  send_found (err e) = send none >> (if rt.is_not_found e then pure no_requeue else raise e)
  send_found (ok obj) =
      if pcs.is_deleted obj
      then send none >> pure no_requeue
      else send (some obj) >> pure no_requeue

  -- `get` reads a config from the platform cluster.
  unfoldable pub reconcile :
      (ObjectKey → Call rt Config) → ObjectKey → Step rt (Channel pcs) CtrlResult
  reconcile get req = do found ← try (calling (get req)); send_found found

  unfoldable pub listed :
      Result rt.Error (List ObjectKey) → Step rt (Option Config) (List ObjectKey)
  listed (err e) = pure []
  listed (ok reqs) = pure reqs

  -- The handler stores the config in the atomic pointer and gives the requests to enqueue, for all objects of
  -- the kind that `emptyObj` says.
  unfoldable pub map_event :
      {T : Type 0}
      → GroupVersionKind
      → ObjectClient rt T
      → Option Config
      → Step rt (Option Config) (List ObjectKey)
  map_event gvk onboarding obj =
      modify (λ _. obj) >> (do found ← try (calling (onboarding.list gvk)); listed found)
