-- ===== src/Resources/ConfigHash/Changes.antt =====
-- Which changes of a config change its hash, and which do not.
use mathlib.Core.List.{append-nil, append_assoc}
use service_provider_otel_co.Base.{◌≡◌, refl, true, List, [], ◌∷◌, ◌++◌, arith}
use service_provider_otel_co.Kube.Objects.{Bytes, ConfigMap, Secret}
use service_provider_otel_co.Kube.Client.{Runtime}
use service_provider_otel_co.Resources.ConfigHash.{
  bytes_eq, sorted_bytes, hash_input, compute_config_hash,
}

pub bytes_eq_refl : (s : Bytes) → bytes_eq s s ≡ true
unfolding bytes_eq
bytes_eq_refl [] = refl
bytes_eq_refl (x ∷ s) = ground (arith, bytes_eq_refl s)

abbrev pub single : Bytes → Bytes → List (Bytes × Bytes)
single k v = (k, v) ∷ []

sorted_bytes-single : (k v : Bytes) → sorted_bytes (single k v) ≡ k ++ v
unfolding sorted_bytes
sorted_bytes-single k v = rw bytes_eq_refl (rw append-nil refl)

-- The key and the value are written with nothing between them: to move bytes from the value of a
-- config's only key into the key leaves the hash as it was, whatever the digest.
pub compute_config_hash_ambiguous :
    (rt : Runtime) (cm : ConfigMap) (secret : Secret) (k u v : Bytes)
    → compute_config_hash rt (record cm { data_map = single k (u ++ v) }) secret
      ≡ compute_config_hash rt (record cm { data_map = single (k ++ u) v }) secret
unfolding compute_config_hash hash_input
compute_config_hash_ambiguous rt cm secret k u v =
    rw (sorted_bytes-single k (u ++ v), sorted_bytes-single (k ++ u) v) (simp append_assoc)
