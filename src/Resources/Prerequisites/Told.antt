-- ===== src/Resources/Prerequisites/Told.antt =====
-- What CheckPrerequisites tells of the objects that the cluster stores.
use text.Mathlib.TextLemmas.{append_assoc}
use service_provider_otel_co.Base.{
  String, ◌<>◌, ◌≡◌, refl, sym, ap, ◌∙◌, Bool, true, false, ◌&&◌, is_some, Option, none, some, List,
  [], ◌∷◌, ◌++◌, ok,
}
use service_provider_otel_co.Kube.Objects.{ConfigMap, Secret}
use service_provider_otel_co.Kube.Client.{Runtime, config_maps, secrets, Client}
use service_provider_otel_co.Kube.Laws.{View, IsLawful}
use service_provider_otel_co.Resources.Constants.{config_map_name, secret_name}
use service_provider_otel_co.Resources.ConfigHash.{compute_config_hash}
use service_provider_otel_co.Resources.Prerequisites.{
  PrerequisiteResult, verdict, check_prerequisites,
}
use service_provider_otel_co.Resources.Prerequisites.Exact.{
  object_in, check_prerequisites-eq_verdict,
}

-- The names, with "and" between them.
abbrev enumerate : List String → String
enumerate [] = ""
enumerate (x ∷ []) = x
enumerate (x ∷ y ∷ ys) = x <> (" and " <> enumerate (y ∷ ys))

abbrev unless : Bool → String → List String
unless true name = []
unless false name = name ∷ []

module _ (rt : Runtime) (ns : String) where
  -- The user's objects that are not there.
  abbrev absent : Bool → Bool → List String
  absent has_config has_secret =
      unless has_config ("ConfigMap " <> rt.quote config_map_name)
      ++ unless has_secret ("Secret " <> rt.quote secret_name)

  abbrev waits_for : List String → String
  waits_for [] = ""
  waits_for (x ∷ xs) = "Waiting for " <> (enumerate (x ∷ xs) <> (" in namespace " <> rt.quote ns))

  abbrev hash_of : Option ConfigMap → Option Secret → String
  hash_of (some cm) (some secret) = compute_config_hash rt cm secret
  hash_of _ _ = ""

  -- Ready where both objects are there, with the hash of both; and otherwise the names of those that are not.
  pub record Tells (cm : Option ConfigMap) (secret : Option Secret) (p : PrerequisiteResult)
      : Type 0 where
    pub readiness : p.ready ≡ (is_some cm && is_some secret)
    pub hash : p.config_hash ≡ hash_of cm secret
    pub reason : p.message ≡ waits_for (absent (is_some cm) (is_some secret))

  -- One name behind the text before it.
  named_once :
      (kind name rest : String)
      → "Waiting for " <> ((kind <> name) <> rest) ≡ ("Waiting for " <> kind) <> (name <> rest)
  named_once kind name rest =
      ap (λ s. "Waiting for " <> s) (append_assoc kind name rest)
      ∙ sym (append_assoc "Waiting for " kind (name <> rest))

  verdict-Tells :
      (c : Client rt) (cm : Option ConfigMap) (secret : Option Secret)
      → Tells cm secret (verdict c ns cm secret)
  unfolding verdict
  verdict-Tells c (some cm) (some secret) = record { readiness = refl; hash = refl; reason = refl }
  verdict-Tells c (some cm) none = record {
    readiness = refl;
    hash = refl;
    reason = sym (named_once "Secret " (rt.quote secret_name) (" in namespace " <> rt.quote ns));
  }
  verdict-Tells c none (some secret) = record {
    readiness = refl;
    hash = refl;
    reason =
        sym (named_once "ConfigMap " (rt.quote config_map_name) (" in namespace " <> rt.quote ns));
  }
  verdict-Tells c none none = record {
    readiness = refl;
    hash = refl;
    reason =
        let end = " in namespace " <> rt.quote ns in
        let config = rt.quote config_map_name in
        let secret = rt.quote secret_name in
        sym (
          ap (λ s. "Waiting for " <> s)
            (append_assoc ("ConfigMap " <> config) (" and " <> ("Secret " <> secret)) end)
          ∙ named_once "ConfigMap " config ((" and " <> ("Secret " <> secret)) <> end)
          ∙ ap (λ s. "Waiting for ConfigMap " <> (config <> s))
              (ap (λ s. s <> end) (sym (append_assoc " and " "Secret " secret))
                ∙ append_assoc " and Secret " secret end));
  }

module _ {rt : Runtime} {c : Client rt} {view : View rt} (L : IsLawful c view) (ns : String) where
  -- With a lawful client, a check that returns no error is ready exactly where the config map and the secret are
  -- stored; its hash is then that of the two, and its message empty; otherwise it has no hash, and its
  -- message names what is not stored and the namespace.
  pub check_prerequisites-Tells :
      (w : rt.World) {p : PrerequisiteResult}
      → (check_prerequisites c ns w).0 ≡ ok p
      → Tells rt ns
          (view w config_maps (object_in ns config_map_name))
          (view w secrets (object_in ns secret_name))
          p
  check_prerequisites-Tells w h =
      rw (check_prerequisites-eq_verdict L ns w h) (verdict-Tells rt ns c _ _)
