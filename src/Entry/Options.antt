-- ===== src/Entry/Options.antt =====
-- cmd/service-provider-otel-collector/main.go: the command, the flags and the options of the servers
use service_provider_otel_co.Base.{
  String, Bool, true, false, not, Option, none, some, List, [], ◌∷◌, text_eq, if◌then◌else◌,
}

-- The variables that the flags set.
pub record Flags : Type 0 where
  pub environment : String
  pub provider_name : String
  pub metrics_addr : String
  pub probe_addr : String
  pub enable_leader_election : Bool
  pub secure_metrics : Bool
  pub webhook_cert_path : String
  pub webhook_cert_name : String
  pub webhook_cert_key : String
  pub metrics_cert_path : String
  pub metrics_cert_name : String
  pub metrics_cert_key : String
  pub enable_http2 : Bool

-- The flags that are not given.
abbrev pub default_flags : Flags
default_flags = record {
  environment = "";
  provider_name = "";
  metrics_addr = "0";
  probe_addr = ":8081";
  enable_leader_election = false;
  secure_metrics = true;
  webhook_cert_path = "";
  webhook_cert_name = "tls.crt";
  webhook_cert_key = "tls.key";
  metrics_cert_path = "";
  metrics_cert_name = "tls.crt";
  metrics_cert_key = "tls.key";
  enable_http2 = false;
}

-- The command, and the arguments that are left for the flags: the first argument is the command, and
-- the empty text if there is none.
unfoldable pub split_args : List String → String × List String
split_args [] = ("", [])
split_args (program ∷ []) = ("", program ∷ [])
split_args (program ∷ command ∷ rest) = (command, program ∷ rest)

-- tls.Config, as far as the program sets it; `none` is a nil slice
pub record TlsConfig : Type 0 where
  pub next_protos : Option (List String)

abbrev pub disable_http2 : TlsConfig → TlsConfig
disable_http2 c = record c { next_protos = some ("http/1.1" ∷ []) }

unfoldable pub tls_opts : Flags → List (TlsConfig → TlsConfig)
tls_opts flags = if not flags.enable_http2 then disable_http2 ∷ [] else []

-- A server applies its options to the config in order.
abbrev pub apply_opts : List (TlsConfig → TlsConfig) → TlsConfig → TlsConfig
apply_opts [] c = c
apply_opts (f ∷ fs) c = apply_opts fs (f c)

-- The certificate of a server, in the three fields that `webhook.Options` and `metricsserver.Options`
-- have for it.
pub record CertFiles : Type 0 where
  pub cert_dir : String
  pub cert_name : String
  pub key_name : String

abbrev pub no_files : CertFiles
no_files = record { cert_dir = ""; cert_name = ""; key_name = "" }

-- `if len(path) > 0 { … }`
abbrev pub files_at : String → String → String → CertFiles
files_at path name key =
    if text_eq path ""
    then no_files
    else record { cert_dir = path; cert_name = name; key_name = key }

pub record WebhookOptions : Type 0 where
  pub tls : List (TlsConfig → TlsConfig)
  pub cert : CertFiles

-- The filter that a server puts in front of its handlers; `none` is a nil filter provider.
pub data FilterProvider : Type 0 where
  with_authentication_and_authorization : FilterProvider

pub record MetricsOptions : Type 0 where
  pub bind_address : String
  pub secure_serving : Bool
  pub tls : List (TlsConfig → TlsConfig)
  pub filter_provider : Option FilterProvider
  pub cert : CertFiles

unfoldable pub webhook_server_options : Flags → WebhookOptions
unfolding tls_opts
webhook_server_options flags = record {
  tls = tls_opts flags;
  cert = files_at flags.webhook_cert_path flags.webhook_cert_name flags.webhook_cert_key;
}

unfoldable pub metrics_server_options : Flags → MetricsOptions
unfolding tls_opts
metrics_server_options flags = record {
  bind_address = flags.metrics_addr;
  secure_serving = flags.secure_metrics;
  tls = tls_opts flags;
  filter_provider =
      if flags.secure_metrics then some with_authentication_and_authorization else none;
  cert = files_at flags.metrics_cert_path flags.metrics_cert_name flags.metrics_cert_key;
}
