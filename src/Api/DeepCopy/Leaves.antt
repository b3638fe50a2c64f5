-- ===== src/Api/DeepCopy/Leaves.antt =====
-- What a reader makes of a cell that holds no reference.
use service_provider_otel_co.Base.{ℕ, String, Option, none, some, List, [], ℤ}
use service_provider_otel_co.Kube.Objects.{Condition, LocalObjectReference, ResourceRequirements}
use service_provider_otel_co.Api.DeepCopy.Heap.{
  Cell, text, names, time, count, duration, quantities, conditions, references,
}

abbrev pub as_text : Option Cell → Option String
as_text (some (text s)) = some s
as_text _ = none

-- A nil slice reads as an empty one.
abbrev pub as_names : Option Cell → List String
as_names (some (names fs)) = fs
as_names _ = []

abbrev pub as_time : Option Cell → Option ℕ
as_time (some (time t)) = some t
as_time _ = none

abbrev pub as_count : Option Cell → Option ℤ
as_count (some (count n)) = some n
as_count _ = none

abbrev pub as_duration : Option Cell → Option ℤ
as_duration (some (duration d)) = some d
as_duration _ = none

abbrev pub as_quantities : Option Cell → Option ResourceRequirements
as_quantities (some (quantities q)) = some q
as_quantities _ = none

abbrev pub as_conditions : Option Cell → List Condition
as_conditions (some (conditions cs)) = cs
as_conditions _ = []

abbrev pub as_references : Option Cell → List LocalObjectReference
as_references (some (references rs)) = rs
as_references _ = []
