-- ===== src/Spruntime/Status.antt =====
-- pkg/spruntime/status.go
pub mod Reported
use service_provider_otel_co.Base.{String}
use service_provider_otel_co.Kube.Objects.{
  ConditionStatus, condition_true, condition_false, Condition,
}
use service_provider_otel_co.Kube.Client.{Runtime}
use service_provider_otel_co.Spruntime.Api.{ServiceProviderApi}

abbrev pub service_provider_condition_ready : String
service_provider_condition_ready = "Ready"

abbrev pub status_phase_ready : String
status_phase_ready = "Ready"

abbrev pub status_phase_progressing : String
status_phase_progressing = "Progressing"

abbrev pub status_phase_terminating : String
status_phase_terminating = "Terminating"

module _ (rt : Runtime) (api : ServiceProviderApi) where
  open api use {Obj}

  -- The condition that all three functions set, at the object's generation.
  abbrev pub ready_condition : ConditionStatus → String → String → Obj → Condition
  ready_condition status reason message obj = record {
    kind = service_provider_condition_ready;
    status = status;
    observed_generation = api.get_generation obj;
    reason = reason;
    message = message;
  }

  -- The three statements of each function.
  unfoldable pub set_status : ConditionStatus → String → String → String → Obj → Obj
  set_status status reason message phase obj =
      let conditions =
        rt.set_status_condition (api.get_conditions obj)
          (ready_condition status reason message obj) in
      let obj₁ = api.set_conditions conditions obj in
      let obj₂ = api.set_observed_generation (api.get_generation obj₁) obj₁ in
      api.set_phase phase obj₂

  unfoldable pub status_progressing : String → String → Obj → Obj
  unfolding set_status
  status_progressing reason message =
      set_status condition_false reason message status_phase_progressing

  unfoldable pub status_ready : Obj → Obj
  unfolding set_status
  status_ready =
      set_status condition_true "ReconcileSuccess" "Domain Service is ready" status_phase_ready

  unfoldable pub status_terminating : Obj → Obj
  unfolding set_status
  status_terminating =
      set_status condition_false "Terminating" "Cleanup in progress" status_phase_terminating
