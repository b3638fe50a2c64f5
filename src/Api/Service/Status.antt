-- ===== src/Api/Service/Status.antt =====
-- The methods of OtelCollectorService keep the promises of the status interface.
use service_provider_otel_co.Base.{Bool, refl}
use service_provider_otel_co.Api.Service.{OtelCollectorServiceStatus, otel_api}
use service_provider_otel_co.Spruntime.Status.Reported.{StatusLaws}

abbrev pub otel_api-StatusLaws :
    (equal : OtelCollectorServiceStatus → OtelCollectorServiceStatus → Bool)
    → StatusLaws (otel_api equal)
otel_api-StatusLaws equal = record {
  phase = λ o. o.status.phase;
  observed_generation = λ o. o.status.observed_generation;
  conditions-set_conditions = λ cs o. refl;
  conditions-set_phase = λ p o. refl;
  conditions-set_observed_generation = λ g o. refl;
  generation-set_conditions = λ cs o. refl;
  phase-set_phase = λ p o. refl;
  observed-set_observed_generation = λ g o. refl;
  observed-set_phase = λ p o. refl;
}
