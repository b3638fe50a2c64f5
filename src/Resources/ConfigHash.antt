-- ===== src/Resources/ConfigHash.antt =====
-- internal/resources/prerequisites.go: computeConfigHash
pub mod Order
pub mod Changes
pub mod Hex
pub mod Values
use service_provider_otel_co.Base.{
  ℕ, zero, suc, ◌/◌, ◌%◌, String, ◌<>◌, Bool, true, false, List, [], ◌∷◌, ◌++◌, map, ltb,
  if◌then◌else◌,
}
use service_provider_otel_co.Kube.Objects.{Bytes, ConfigMap, Secret}
use service_provider_otel_co.Kube.Client.{Runtime}

-- Go's order of strings, byte by byte.
unfoldable pub bytes_leb : Bytes → Bytes → Bool
bytes_leb [] t = true
bytes_leb (x ∷ s) [] = false
bytes_leb (x ∷ s) (y ∷ t) = if ltb x y then true else if ltb y x then false else bytes_leb s t

insert_sorted : Bytes → List Bytes → List Bytes
insert_sorted k [] = k ∷ []
insert_sorted k (j ∷ ks) = if bytes_leb k j then k ∷ j ∷ ks else j ∷ insert_sorted k ks

-- sort.Strings
unfoldable pub sort_strings : List Bytes → List Bytes
unfolding insert_sorted bytes_leb
sort_strings [] = []
sort_strings (k ∷ ks) = insert_sorted k (sort_strings ks)

unfoldable pub bytes_eq : Bytes → Bytes → Bool
bytes_eq [] [] = true
bytes_eq (x ∷ s) (y ∷ t) = if ltb x y then false else if ltb y x then false else bytes_eq s t
bytes_eq _ _ = false

-- `m[k]`, which is empty where the key is missing
unfoldable pub value_at : List (Bytes × Bytes) → Bytes → Bytes
unfolding bytes_eq
value_at [] k = []
value_at ((j, v) ∷ m) k = if bytes_eq j k then v else value_at m k

abbrev pub keys_of : List (Bytes × Bytes) → List Bytes
keys_of = map (λ e. e.0)

-- What a loop over keys writes to the hash: each key, then its value.
unfoldable pub written : List (Bytes × Bytes) → List Bytes → Bytes
unfolding value_at
written m [] = []
written m (k ∷ ks) = k ++ (value_at m k ++ written m ks)

-- The bytes of one map, and of both.
unfoldable pub sorted_bytes : List (Bytes × Bytes) → Bytes
unfolding written sort_strings
sorted_bytes m = written m (sort_strings (keys_of m))

unfoldable pub hash_input : ConfigMap → Secret → Bytes
unfolding sorted_bytes
hash_input cm secret = sorted_bytes cm.data_map ++ sorted_bytes secret.data_map

abbrev pub digits : List String
digits =
    "0" ∷ "1" ∷ "2" ∷ "3" ∷ "4" ∷ "5" ∷ "6" ∷ "7" ∷ "8" ∷ "9" ∷ "a" ∷ "b" ∷ "c" ∷ "d" ∷ "e" ∷ "f"
    ∷ []

digit_at : ℕ → List String → String
digit_at n [] = ""
digit_at zero (d ∷ ds) = d
digit_at (suc n) (d ∷ ds) = digit_at n ds

-- `%x` of a byte slice
unfoldable pub hex : Bytes → String
unfolding digit_at
hex [] = ""
hex (b ∷ bs) = digit_at (b / 16) digits <> (digit_at (b % 16) digits <> hex bs)

unfoldable pub compute_config_hash : Runtime → ConfigMap → Secret → String
unfolding hex hash_input
compute_config_hash rt cm secret = hex (rt.sha256_sum (hash_input cm secret))
