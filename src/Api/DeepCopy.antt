-- ===== src/Api/DeepCopy.antt =====
-- api/v1alpha1/zz_generated.deepcopy.go: the copies of the API's objects, on a heap. The other modules
-- take objects as values; here their pointers and slices are references, and the values are views.
pub mod Heap
mod Shape
pub mod Parts
mod Pointer
mod Leaves
pub mod Metadata
pub mod Service
pub mod Config
pub mod ServiceView
pub mod ConfigView
mod ServiceCopies
mod ConfigCopies
pub mod Objects
pub mod Independence
