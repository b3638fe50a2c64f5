-- ===== src/Examples/HashRuns.antt =====
-- The hash of two configs that differ in one value.
use mathlib.Core.List.{Permᴰ}
use service_provider_otel_co.Base.{◌≡◌, ◌≢◌, refl, sym, Bool-cases, inl, inr, [], ◌∷◌, arith}
use service_provider_otel_co.Kube.Objects.{Bytes, ConfigMap, Secret}
use service_provider_otel_co.Resources.ConfigHash.{
  bytes_eq, value_at, hash_input, keys_of, compute_config_hash,
}
use service_provider_otel_co.Resources.ConfigHash.Hex.{AreBytes}
use service_provider_otel_co.Resources.ConfigHash.Values.{
  AgreeBut, bytes_eq_sound, compute_config_hash_value, compute_config_hash_secret, occurs,
}
use service_provider_otel_co.Examples.Cluster.{runtime}
use service_provider_otel_co.Examples.Data.{user_config, user_secret}

abbrev key : Bytes
key = 98 ∷ []

abbrev with_value : Bytes → ConfigMap
with_value v = record user_config { data_map = (97 ∷ [], 1 ∷ []) ∷ (key, v) ∷ [] }

values-AgreeBut : AgreeBut key (with_value (2 ∷ [])).data_map (with_value (3 ∷ [])).data_map
unfolding value_at
values-AgreeBut j ne = elim (Bool-cases (bytes_eq key j)) [
  | inl e ↦ absurd (ne (sym (bytes_eq_sound key j e)))
  | inr e ↦ rw e refl
]

value-AreBytes : AreBytes (runtime.sha256_sum (hash_input (with_value (2 ∷ [])) user_secret))
unfolding hash_input
value-AreBytes =
    (omega arith, (omega arith, (omega arith, (omega arith, (omega arith, (omega arith, tt))))))

other-AreBytes : AreBytes (runtime.sha256_sum (hash_input (with_value (3 ∷ [])) user_secret))
unfolding hash_input
other-AreBytes =
    (omega arith, (omega arith, (omega arith, (omega arith, (omega arith, (omega arith, tt))))))

once : occurs key (keys_of (with_value (2 ∷ [])).data_map) ≡ 1
unfolding occurs
once = refl

differs : value_at (with_value (2 ∷ [])).data_map key ≢ value_at (with_value (3 ∷ [])).data_map key
unfolding value_at
differs e = ground (arith, e)

compute_config_hash_value_example :
    compute_config_hash runtime (with_value (2 ∷ [])) user_secret
    ≢ compute_config_hash runtime (with_value (3 ∷ [])) user_secret
compute_config_hash_value_example =
    compute_config_hash_value runtime (with_value (2 ∷ [])) (with_value (3 ∷ [])) user_secret key
      ∣ Permᴰ.cons refl (Permᴰ.cons refl Permᴰ.nil) ∣₁ values-AgreeBut once differs value-AreBytes
      other-AreBytes (λ e. e)

abbrev secret_with : Bytes → Secret
secret_with v = record user_secret { data_map = (97 ∷ [], 1 ∷ []) ∷ (key, v) ∷ [] }

secret-AreBytes : AreBytes (runtime.sha256_sum (hash_input user_config (secret_with (2 ∷ []))))
unfolding hash_input
secret-AreBytes = (
  omega arith,
  (
    omega arith,
    (
      omega arith,
      (omega arith, (omega arith, (omega arith, (omega arith, (omega arith, (omega arith, tt)))))),
    ),
  ),
)

other_secret-AreBytes :
    AreBytes (runtime.sha256_sum (hash_input user_config (secret_with (3 ∷ []))))
unfolding hash_input
other_secret-AreBytes = (
  omega arith,
  (
    omega arith,
    (
      omega arith,
      (omega arith, (omega arith, (omega arith, (omega arith, (omega arith, (omega arith, tt)))))),
    ),
  ),
)

compute_config_hash_secret_example :
    compute_config_hash runtime user_config (secret_with (2 ∷ []))
    ≢ compute_config_hash runtime user_config (secret_with (3 ∷ []))
compute_config_hash_secret_example =
    compute_config_hash_secret runtime user_config (secret_with (2 ∷ [])) (secret_with (3 ∷ [])) key
      ∣ Permᴰ.cons refl (Permᴰ.cons refl Permᴰ.nil) ∣₁ values-AgreeBut once differs secret-AreBytes
      other_secret-AreBytes (λ e. e)
