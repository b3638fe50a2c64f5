-- ===== src/Resources/Prerequisites.antt =====
-- internal/resources/prerequisites.go: CheckPrerequisites
pub mod Exact
pub mod Returns
pub mod Told
use service_provider_otel_co.Base.{
  String, ◌<>◌, Bool, true, false, Option, none, some, Result, ok, err, try, pure, raise, ◌>>=◌,
  if◌then◌else◌,
}
use service_provider_otel_co.Kube.Objects.{ConfigMap, Secret}
use service_provider_otel_co.Kube.Client.{Runtime, Call, Kind, config_maps, secrets, Object, Client}
use service_provider_otel_co.Resources.Constants.{config_map_name, secret_name}
use service_provider_otel_co.Resources.ConfigHash.{compute_config_hash}

pub record PrerequisiteResult : Type 0 where
  pub ready : Bool
  pub message : String
  pub config_hash : String

abbrev pub waiting : String → PrerequisiteResult
waiting message = record { ready = false; message = message; config_hash = "" }

module _ {rt : Runtime} (c : Client rt) (ns : String) where
  -- The branches of the three tests on `cmExists` and `secretExists`, and what follows them.
  unfoldable pub verdict : Option ConfigMap → Option Secret → PrerequisiteResult
  verdict none none = waiting (
      "Waiting for ConfigMap "
      <> (rt.quote config_map_name
          <> (" and Secret " <> (rt.quote secret_name <> (" in namespace " <> rt.quote ns)))))
  verdict none (some _) =
      waiting (
        "Waiting for ConfigMap " <> (rt.quote config_map_name <> (" in namespace " <> rt.quote ns)))
  verdict (some _) none =
      waiting ("Waiting for Secret " <> (rt.quote secret_name <> (" in namespace " <> rt.quote ns)))
  verdict (some cm) (some secret) = record {
    ready = true;
    message = "";
    config_hash = compute_config_hash rt cm secret;
  }

  -- A read that may find nothing; any other error is returned behind the text `m`.
  unfoldable pub optional : {A : Type 0} → String → Result rt.Error A → Call rt (Option A)
  optional m (ok o) = pure (some o)
  optional m (err e) = if rt.is_not_found e then pure none else raise (rt.wrap m e)

  unfoldable pub read : (k : Kind) → String → String → Call rt (Option (Object k))
  unfolding optional
  read k name m = do
    found ← try (c.get k (record { namespace = ns; name = name }))
    optional m found

  unfoldable pub check_prerequisites : Call rt PrerequisiteResult
  check_prerequisites = do
    cm ← read config_maps config_map_name ("checking ConfigMap " <> config_map_name)
    secret ← read secrets secret_name ("checking Secret " <> secret_name)
    pure (verdict cm secret)
