-- ===== src/Api/DeepCopy/Independence.antt =====
-- zz_generated.deepcopy.go: what the copies are for. A controller changes the object that it got from a cache's copy,
-- and the cache keeps what it had; and the reverse.
use service_provider_otel_co.Base.{
  ℕ, ◌≤◌, ◌<◌, ◌≡◌, refl, ◌∙◌, none, some, List, [], ◌∷◌, All, All-map, arith,
}
use service_provider_otel_co.Api.DeepCopy.Heap.{Ref, Cell, Heap, write, Below, Fresh, read-Extends}
use service_provider_otel_co.Api.DeepCopy.Shape.{Agree, Shape, Copyable}
use service_provider_otel_co.Api.DeepCopy.Service.{service_deep_copy, list_deep_copy}
use service_provider_otel_co.Api.DeepCopy.Config
use service_provider_otel_co.Api.DeepCopy.Config.{config_deep_copy}
use service_provider_otel_co.Api.DeepCopy.ServiceView
use service_provider_otel_co.Api.DeepCopy.ConfigView
use service_provider_otel_co.Api.DeepCopy.ServiceCopies
use service_provider_otel_co.Api.DeepCopy.ConfigCopies

-- Assignments, in any number and order.
unfoldable pub writes : List (ℕ × Cell) → Heap → Heap
unfolding write
writes [] h = h
writes (w ∷ ws) h = writes ws (write w.0 w.1 h)

abbrev pub InUse : {B V : Type 0} → Shape B V → Heap → B → Type 0
InUse S h b = All (Below h.next) (S.reach h b)

-- `b'` reads as `b` did on `h`; it goes on to after the assignments `old`; and `b` reads as it did after `new`.
pub record Independent {B V : Type 0} (S : Shape B V) (h : Heap) (b b' : B) (h' : Heap)
    (old new : List (ℕ × Cell)) : Type 0 where
  pub same : S.view h' b' ≡ S.view h b
  pub copy_keeps : S.view (writes old h') b' ≡ S.view h b
  pub original_keeps : S.view (writes new h') b ≡ S.view h b

-- To cells that were in use on `h`; and to cells that were not.
abbrev pub ToOld : Heap → List (ℕ × Cell) → Type 0
ToOld h ws = All (λ w. w.0 < h.next) ws

abbrev pub ToNew : Heap → List (ℕ × Cell) → Type 0
ToNew h ws = All (λ w. h.next ≤ w.0) ws

writes_below :
    (n : ℕ) (ws : List (ℕ × Cell)) (h : Heap) (r : Ref)
    → All (λ w. w.0 < n) ws
    → Fresh n r
    → Agree h (writes ws h) r
unfolding writes
writes_below n [] h r lt f = refl
writes_below n (w ∷ ws) h none lt f = refl
writes_below n (w ∷ ws) h (some b) lt f =
    writes_below n ws (write w.0 w.1 h) (some b) lt.1 f ∙ (let q : w.0 < n = lt.0 in ground arith)

writes_above :
    (n : ℕ) (ws : List (ℕ × Cell)) (h : Heap) (r : Ref)
    → All (λ w. n ≤ w.0) ws
    → Below n r
    → Agree h (writes ws h) r
unfolding writes
writes_above n [] h r lt f = refl
writes_above n (w ∷ ws) h none lt f = refl
writes_above n (w ∷ ws) h (some b) lt f =
    writes_above n ws (write w.0 w.1 h) (some b) lt.1 f ∙ (let q : n ≤ w.0 = lt.0 in ground arith)

copied-Independent :
    {B V : Type 0} (C : Copyable B V) (h : Heap) (b : B) {old new : List (ℕ × Cell)}
    → InUse C.shape h b
    → ToOld h old
    → ToNew h new
    → Independent C.shape h b (C.into b h).0 (C.into b h).1 old new
copied-Independent C h b {old} {new} used lt ge =
    let S = C.shape in
    let c = C.copies b h used in
    let k = (C.into b h).1 in
    let b' = (C.into b h).0 in
    record {
      same = c.same;
      copy_keeps =
          (S.local k (writes old k) b'
            (All-map (λ r f. writes_below h.next old k r lt f) (S.reach k b') c.fresh)).1
          ∙ c.same;
      original_keeps =
          (S.local h (writes new k) b (
            All-map (λ r f. writes_above h.next new k r ge f ∙ read-Extends c.extends r f)
              (S.reach h b) used)).1;
    }

-- Where all cells behind a reference to an OtelCollectorService are in use: a reader of the copy sees what a reader of
-- the original sees, also after any assignments to the cells that were in use before the copy; and a
-- reader of the original does after any assignments to other cells.
pub service_deep_copy-Independent :
    (h : Heap) (r : Ref) {old new : List (ℕ × Cell)}
    → InUse ServiceView.pointer h r
    → ToOld h old
    → ToNew h new
    → Independent ServiceView.pointer h r
        (service_deep_copy r h).0
        (service_deep_copy r h).1
        old
        new
unfolding service_deep_copy
service_deep_copy-Independent h r = copied-Independent ServiceCopies.pointer_copies h r

-- Where all cells behind a reference to a ProviderConfig are in use: a reader of the copy sees what a reader of
-- the original sees, also after any assignments to the cells that were in use before the copy; and a
-- reader of the original does after any assignments to other cells.
pub config_deep_copy-Independent :
    (h : Heap) (r : Ref) {old new : List (ℕ × Cell)}
    → InUse ConfigView.pointer h r
    → ToOld h old
    → ToNew h new
    → Independent ConfigView.pointer h r (config_deep_copy r h).0 (config_deep_copy r h).1 old new
unfolding config_deep_copy
config_deep_copy-Independent h r = copied-Independent ConfigCopies.pointer_copies h r

-- Where all cells behind a reference to an OtelCollectorServiceList, with its items, are in use: a reader of the copy sees what a reader of
-- the original sees, also after any assignments to the cells that were in use before the copy; and a
-- reader of the original does after any assignments to other cells.
pub service_list_deep_copy-Independent :
    (h : Heap) (r : Ref) {old new : List (ℕ × Cell)}
    → InUse ServiceView.list_pointer h r
    → ToOld h old
    → ToNew h new
    → Independent ServiceView.list_pointer h r (list_deep_copy r h).0 (list_deep_copy r h).1 old new
unfolding list_deep_copy
service_list_deep_copy-Independent h r = copied-Independent ServiceCopies.list_pointer_copies h r

-- Where all cells behind a reference to a ProviderConfigList, with its items, are in use: a reader of the copy sees what a reader of
-- the original sees, also after any assignments to the cells that were in use before the copy; and a
-- reader of the original does after any assignments to other cells.
pub config_list_deep_copy-Independent :
    (h : Heap) (r : Ref) {old new : List (ℕ × Cell)}
    → InUse ConfigView.list_pointer h r
    → ToOld h old
    → ToNew h new
    → Independent ConfigView.list_pointer h r
        (Config.list_deep_copy r h).0
        (Config.list_deep_copy r h).1
        old
        new
unfolding Config.list_deep_copy
config_list_deep_copy-Independent h r = copied-Independent ConfigCopies.list_pointer_copies h r
