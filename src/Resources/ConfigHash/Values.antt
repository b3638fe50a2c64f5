-- ===== src/Resources/ConfigHash/Values.antt =====
-- A change of one value of the user's config changes the hash, and so the deployment's pods.
use mathlib.Core.Path.{ap₂, subst}
use mathlib.Core.List.{Perm, append_cancel_left, append_cancel_right}
use service_provider_otel_co.Base.{
  ℕ, suc, ◌≡◌, ◌≢◌, refl, sym, ap, ◌∙◌, true, false, Bool-cases, inl, inr, List, [], ◌∷◌, ◌++◌,
  arith, if◌then◌else◌,
}
use service_provider_otel_co.Kube.Objects.{Bytes, ConfigMap, Secret}
use service_provider_otel_co.Kube.Client.{Runtime}
use service_provider_otel_co.Resources.ConfigHash.{
  bytes_eq, insert_sorted, sort_strings, value_at, keys_of, written, sorted_bytes, hash_input,
  compute_config_hash,
}
use service_provider_otel_co.Resources.ConfigHash.Order.{sort_strings-perm}
use service_provider_otel_co.Resources.ConfigHash.Changes.{bytes_eq_refl}
use service_provider_otel_co.Resources.ConfigHash.Hex.{AreBytes, hex-injective}

pub bytes_eq_sound : (s t : Bytes) → bytes_eq s t ≡ true → s ≡ t
unfolding bytes_eq
bytes_eq_sound [] [] h = refl
bytes_eq_sound [] (y ∷ t) h = cc
bytes_eq_sound (x ∷ s) [] h = cc
bytes_eq_sound (x ∷ s) (y ∷ t) h = ground (arith, bytes_eq_sound s t)

bytes_eq-ne : (s t : Bytes) → bytes_eq s t ≡ false → s ≢ t
bytes_eq-ne s t h e = let r = subst (λ u. bytes_eq s u ≡ true) e (bytes_eq_refl s) in absurd cc

-- How often a key is in a list.
unfoldable pub occurs : Bytes → List Bytes → ℕ
unfolding bytes_eq
occurs k [] = 0
occurs k (j ∷ ks) = let rest = occurs k ks in if bytes_eq j k then suc rest else rest

occurs-insert_sorted :
    (k j : Bytes) (ks : List Bytes) → occurs k (insert_sorted j ks) ≡ occurs k (j ∷ ks)
unfolding occurs insert_sorted
occurs-insert_sorted k j [] = refl
occurs-insert_sorted k j (i ∷ ks) = ground (arith, occurs-insert_sorted k j ks)

occurs-sort_strings : (k : Bytes) (ks : List Bytes) → occurs k (sort_strings ks) ≡ occurs k ks
unfolding occurs sort_strings
occurs-sort_strings k [] = refl
occurs-sort_strings k (j ∷ ks) =
    let step = occurs-insert_sorted k j (sort_strings ks) in
    ground (arith, occurs-sort_strings k ks)

-- The values of all other keys are the same.
abbrev pub AgreeBut : Bytes → List (Bytes × Bytes) → List (Bytes × Bytes) → Type 0
AgreeBut k m n = (j : Bytes) → j ≢ k → value_at m j ≡ value_at n j

module _ (m n : List (Bytes × Bytes)) (k : Bytes) (agree : AgreeBut k m n) where
  written-agree : (ks : List Bytes) → occurs k ks ≡ 0 → written m ks ≡ written n ks
  unfolding written occurs
  written-agree [] h = refl
  written-agree (j ∷ ks) h = elim (Bool-cases (bytes_eq j k)) [
    | inl e ↦ absurd (ground arith)
    | inr e ↦
        ap₂ (λ v rest. j ++ (v ++ rest)) (agree j (bytes_eq-ne j k e))
          (written-agree ks (ground arith))
  ]

  written-value :
      (ks : List Bytes)
      → occurs k ks ≡ 1
      → written m ks ≡ written n ks
      → value_at m k ≡ value_at n k
  unfolding written occurs
  written-value [] h w = absurd (omega arith)
  written-value (j ∷ ks) h w = elim (Bool-cases (bytes_eq j k)) [
    | inl e ↦
        let is = bytes_eq_sound j k e in
        let values = append_cancel_left j _ _ w in
        let rest = written-agree ks (ground arith) in
        let same : value_at m j ++ written m ks ≡ value_at n j ++ written m ks =
          values ∙ ap (λ r. value_at n j ++ r) (sym rest) in
        subst (λ i. value_at m i ≡ value_at n i) is
          (append_cancel_right (value_at m j) (value_at n j) (written m ks) same)
    | inr e ↦
        let values = append_cancel_left j _ _ w in
        let same : value_at m j ++ written m ks ≡ value_at m j ++ written n ks =
          values ∙ ap (λ v. v ++ written n ks) (sym (agree j (bytes_eq-ne j k e))) in
        written-value ks (ground arith) (append_cancel_left (value_at m j) _ _ same)
  ]

sorted_bytes-value :
    (m n : List (Bytes × Bytes)) (k : Bytes)
    → Perm (keys_of m) (keys_of n)
    → AgreeBut k m n
    → occurs k (keys_of m) ≡ 1
    → sorted_bytes m ≡ sorted_bytes n
    → value_at m k ≡ value_at n k
unfolding sorted_bytes
sorted_bytes-value m n k perm agree once e =
    written-value m n k agree (sort_strings (keys_of m)) (occurs-sort_strings k (keys_of m) ∙ once)
      (e ∙ ap (written n) (sym (sort_strings-perm perm)))

-- Where the digests of the two configs' bytes differ if these do: a config map with another value for one of
-- its keys, and the same keys and values otherwise, has another hash, with the same secret.
pub compute_config_hash_value :
    (rt : Runtime) (cm cm' : ConfigMap) (secret : Secret) (k : Bytes)
    → Perm (keys_of cm.data_map) (keys_of cm'.data_map)
    → AgreeBut k cm.data_map cm'.data_map
    → occurs k (keys_of cm.data_map) ≡ 1
    → value_at cm.data_map k ≢ value_at cm'.data_map k
    → AreBytes (rt.sha256_sum (hash_input cm secret))
    → AreBytes (rt.sha256_sum (hash_input cm' secret))
    → (rt.sha256_sum (hash_input cm secret) ≡ rt.sha256_sum (hash_input cm' secret)
        → hash_input cm secret ≡ hash_input cm' secret)
    → compute_config_hash rt cm secret ≢ compute_config_hash rt cm' secret
unfolding compute_config_hash hash_input
compute_config_hash_value rt cm cm' secret k perm agree once differ p q no_collision e = differ (
    sorted_bytes-value cm.data_map cm'.data_map k perm agree once (
      append_cancel_right (sorted_bytes cm.data_map) (sorted_bytes cm'.data_map)
        (sorted_bytes secret.data_map) (no_collision (hex-injective _ _ p q e))))

-- Where the digests of the two configs' bytes differ if these do: a secret with another value for one of its keys,
-- and the same keys and values otherwise, has another hash, with the same config map.
pub compute_config_hash_secret :
    (rt : Runtime) (cm : ConfigMap) (secret secret' : Secret) (k : Bytes)
    → Perm (keys_of secret.data_map) (keys_of secret'.data_map)
    → AgreeBut k secret.data_map secret'.data_map
    → occurs k (keys_of secret.data_map) ≡ 1
    → value_at secret.data_map k ≢ value_at secret'.data_map k
    → AreBytes (rt.sha256_sum (hash_input cm secret))
    → AreBytes (rt.sha256_sum (hash_input cm secret'))
    → (rt.sha256_sum (hash_input cm secret) ≡ rt.sha256_sum (hash_input cm secret')
        → hash_input cm secret ≡ hash_input cm secret')
    → compute_config_hash rt cm secret ≢ compute_config_hash rt cm secret'
unfolding compute_config_hash hash_input
compute_config_hash_secret rt cm secret secret' k perm agree once differ p q no_collision e =
    differ (
      sorted_bytes-value secret.data_map secret'.data_map k perm agree once (
        append_cancel_left (sorted_bytes cm.data_map) (sorted_bytes secret.data_map)
          (sorted_bytes secret'.data_map) (no_collision (hex-injective _ _ p q e))))
