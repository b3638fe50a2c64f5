-- ===== src/Spruntime/Status/Reported.antt =====
-- What the three functions of pkg/spruntime/status.go leave in the status.
use service_provider_otel_co.Base.{
  String, ◌≡◌, ◌∙◌, false, ℤ, Option, none, some, List, [], ◌∷◌, text_eq, if◌then◌else◌,
}
use service_provider_otel_co.Kube.Objects.{
  ConditionStatus, condition_true, condition_false, Condition,
}
use service_provider_otel_co.Kube.Client.{Runtime}
use service_provider_otel_co.Spruntime.Api.{ServiceProviderApi}
use service_provider_otel_co.Spruntime.Status.{
  service_provider_condition_ready, status_phase_ready, status_phase_progressing,
  status_phase_terminating, ready_condition, set_status, status_progressing, status_ready,
  status_terminating,
}

-- The condition of a type.
abbrev pub find_condition : String → List Condition → Option Condition
find_condition k [] = none
find_condition k (c ∷ cs) = if text_eq c.kind k then some c else find_condition k cs

-- `meta.SetStatusCondition` sets the condition of that type and leaves those of other types alone.
pub record SetsConditions (rt : Runtime) : Type 0 where
  pub find-set :
      (cs : List Condition) (c : Condition) (k : String)
      → find_condition k (rt.set_status_condition cs c)
        ≡ (if text_eq c.kind k then some c else find_condition k cs)

-- What a type's methods promise: a setter sets its part of the status and nothing else that is read.
pub record StatusLaws (api : ServiceProviderApi) : Type 0 where
  pub phase : api.Obj → String
  pub observed_generation : api.Obj → ℤ
  pub conditions-set_conditions :
      (cs : List Condition) (o : api.Obj) → api.get_conditions (api.set_conditions cs o) ≡ cs
  pub conditions-set_phase :
      (p : String) (o : api.Obj) → api.get_conditions (api.set_phase p o) ≡ api.get_conditions o
  pub conditions-set_observed_generation :
      (g : ℤ) (o : api.Obj)
      → api.get_conditions (api.set_observed_generation g o) ≡ api.get_conditions o
  pub generation-set_conditions :
      (cs : List Condition) (o : api.Obj)
      → api.get_generation (api.set_conditions cs o) ≡ api.get_generation o
  pub phase-set_phase : (p : String) (o : api.Obj) → phase (api.set_phase p o) ≡ p
  pub observed-set_observed_generation :
      (g : ℤ) (o : api.Obj) → observed_generation (api.set_observed_generation g o) ≡ g
  pub observed-set_phase :
      (p : String) (o : api.Obj) → observed_generation (api.set_phase p o) ≡ observed_generation o

module _ {rt : Runtime} {api : ServiceProviderApi} (S : SetsConditions rt)
    (A : StatusLaws api) where
  -- The object `new` reports a phase and a Ready condition at the generation of `old`, and has the
  -- other conditions of `old`.
  pub record Reports (status : ConditionStatus) (reason message phase : String) (old new : api.Obj)
      : Type 0 where
    pub of_phase : A.phase new ≡ phase
    pub of_generation : A.observed_generation new ≡ api.get_generation old
    pub of_ready :
        find_condition service_provider_condition_ready (api.get_conditions new)
        ≡ some (ready_condition rt api status reason message old)
    pub of_others :
        (k : String)
        → text_eq service_provider_condition_ready k ≡ false
        → find_condition k (api.get_conditions new) ≡ find_condition k (api.get_conditions old)

  conditions-set_status :
      (status : ConditionStatus) (reason message phase : String) (o : api.Obj)
      → api.get_conditions (set_status rt api status reason message phase o)
        ≡ rt.set_status_condition
            (api.get_conditions o)
            (ready_condition rt api status reason message o)
  unfolding set_status
  conditions-set_status status reason message phase o =
      rw (A.conditions-set_phase, A.conditions-set_observed_generation, A.conditions-set_conditions)

  pub set_status-Reports :
      (status : ConditionStatus) (reason message phase : String) (o : api.Obj)
      → Reports status reason message phase o (set_status rt api status reason message phase o)
  set_status-Reports status reason message phase o = record {
    of_phase = unfold set_status in A.phase-set_phase phase _;
    of_generation =
        unfold set_status in
        (A.observed-set_phase phase _
          ∙ (A.observed-set_observed_generation _ _ ∙ A.generation-set_conditions _ o));
    of_ready = rw conditions-set_status (
        S.find-set (api.get_conditions o) (ready_condition rt api status reason message o)
          service_provider_condition_ready);
    of_others = λ k other. rw conditions-set_status (
        S.find-set (api.get_conditions o) (ready_condition rt api status reason message o) k
        ∙ rw other);
  }

  -- Where the library sets one condition and a setter its part of the status: each function reports its
  -- phase together with the matching Ready condition, at the object's generation, and keeps the
  -- conditions of other types.
  pub statuses-Report :
      (o : api.Obj) (reason message : String)
      → Reports condition_false reason message status_phase_progressing o
          (status_progressing rt api reason message o)
        × Reports condition_true "ReconcileSuccess" "Domain Service is ready" status_phase_ready o
            (status_ready rt api o)
        × Reports condition_false "Terminating" "Cleanup in progress" status_phase_terminating o
            (status_terminating rt api o)
  unfolding status_progressing status_ready status_terminating
  statuses-Report o reason message =
      (set_status-Reports _ _ _ _ o, set_status-Reports _ _ _ _ o, set_status-Reports _ _ _ _ o)
