-- ===== src/Resources/ConfigHash/Order.antt =====
-- The hash of a config does not depend on the order in which Go iterates over its maps.
use mathlib.Core.List.{Perm, Permᴰ}
use mathlib.Core.Path.{ap₂}
use mathlib.Core.Logic.{∥∥₁_elim}
use service_provider_otel_co.Base.{◌≡◌, refl, ap, ◌∙◌, true, false, List, [], ◌∷◌, ◌++◌, arith}
use service_provider_otel_co.Kube.Objects.{Bytes, ConfigMap, Secret}
use service_provider_otel_co.Kube.Client.{Runtime}
use service_provider_otel_co.Resources.ConfigHash.{
  bytes_leb, insert_sorted, sort_strings, value_at, keys_of, written, sorted_bytes, hash_input,
  compute_config_hash,
}

bytes_leb_antisym : (s t : Bytes) → bytes_leb s t ≡ true → bytes_leb t s ≡ true → s ≡ t
unfolding bytes_leb
bytes_leb_antisym [] [] h k = refl
bytes_leb_antisym [] (y ∷ t) h k = cc
bytes_leb_antisym (x ∷ s) [] h k = cc
bytes_leb_antisym (x ∷ s) (y ∷ t) h k = ground (arith, bytes_leb_antisym s t)

bytes_leb_total : (s t : Bytes) → bytes_leb s t ≡ false → bytes_leb t s ≡ true
unfolding bytes_leb
bytes_leb_total [] t h = cc
bytes_leb_total (x ∷ s) [] h = refl
bytes_leb_total (x ∷ s) (y ∷ t) h = ground (arith, bytes_leb_total s t)

bytes_leb_trans :
    (r s t : Bytes) → bytes_leb r s ≡ true → bytes_leb s t ≡ true → bytes_leb r t ≡ true
unfolding bytes_leb
bytes_leb_trans [] s t h k = refl
bytes_leb_trans (x ∷ r) [] t h k = cc
bytes_leb_trans (x ∷ r) (y ∷ s) [] h k = cc
bytes_leb_trans (x ∷ r) (y ∷ s) (z ∷ t) h k = ground (arith, bytes_leb_trans r s t)

insert_sorted_comm :
    (a b : Bytes) (l : List Bytes)
    → insert_sorted a (insert_sorted b l) ≡ insert_sorted b (insert_sorted a l)
unfolding insert_sorted
insert_sorted_comm a b [] = ground (arith, bytes_leb_antisym a b, bytes_leb_total a b)
insert_sorted_comm a b (c ∷ l) = ground (
  arith,
  insert_sorted_comm a b l,
  bytes_leb_antisym a b,
  bytes_leb_total a b,
  bytes_leb_trans a b c,
  bytes_leb_trans b a c,
  bytes_leb_total a c,
  bytes_leb_total b c,
)

sort_strings-permᴰ : {l m : List Bytes} → Permᴰ l m → sort_strings l ≡ sort_strings m
unfolding sort_strings
sort_strings-permᴰ Permᴰ.nil = refl
sort_strings-permᴰ (Permᴰ.cons e p) = ap₂ insert_sorted e (sort_strings-permᴰ p)
sort_strings-permᴰ (Permᴰ.swap {a} {b} {l} e f) =
    insert_sorted_comm a b (sort_strings l)
    ∙ ap₂ (λ x y. insert_sorted x (insert_sorted y (sort_strings l))) f e
sort_strings-permᴰ (Permᴰ.trans p q) = sort_strings-permᴰ p ∙ sort_strings-permᴰ q

Keys-set : IsSet (List Bytes)
Keys-set = hlevel

-- Sorting forgets the order of the keys.
pub sort_strings-perm : {l m : List Bytes} → Perm l m → sort_strings l ≡ sort_strings m
sort_strings-perm p = ∥∥₁_elim p (Keys-set _ _) sort_strings-permᴰ

-- Two enumerations of one Go map: the same keys, and the same value at each.
pub record SameMap (m n : List (Bytes × Bytes)) : Type 0 where
  pub same_keys : Perm (keys_of m) (keys_of n)
  pub same_values : (k : Bytes) → value_at m k ≡ value_at n k

written-eq :
    (m n : List (Bytes × Bytes)) (ks : List Bytes)
    → ((k : Bytes) → value_at m k ≡ value_at n k)
    → written m ks ≡ written n ks
unfolding written
written-eq m n [] h = refl
written-eq m n (k ∷ ks) h = ap₂ (λ v rest. k ++ (v ++ rest)) (h k) (written-eq m n ks h)

sorted_bytes-eq : {m n : List (Bytes × Bytes)} → SameMap m n → sorted_bytes m ≡ sorted_bytes n
unfolding sorted_bytes
sorted_bytes-eq {m} {n} s =
    ap (written m) (sort_strings-perm s.same_keys)
    ∙ written-eq m n (sort_strings (keys_of n)) s.same_values

-- Maps with the same keys, in any order, and the same value for every key have the same hash.
pub compute_config_hash_order :
    (rt : Runtime) (cm cm' : ConfigMap) (secret secret' : Secret)
    → SameMap cm.data_map cm'.data_map
    → SameMap secret.data_map secret'.data_map
    → compute_config_hash rt cm secret ≡ compute_config_hash rt cm' secret'
unfolding compute_config_hash hash_input
compute_config_hash_order rt cm cm' secret secret' p q = rw (sorted_bytes-eq p, sorted_bytes-eq q)
