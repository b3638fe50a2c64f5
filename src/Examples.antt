-- ===== src/Examples.antt =====
-- Concrete clusters, and the theorems at them.
mod Store
mod Cluster
mod Lawful
mod Serving
mod Data
mod ControllerRuns
mod Provider
mod Tracked
mod ProviderRuns
mod ResourceRuns
mod EntryRuns
mod SystemRuns
mod HeapRuns
mod HashRuns
mod FinalizedRuns
mod ServedRuns
mod StableRuns
mod EndingRuns
mod SchemeRuns
mod DeletionRuns
