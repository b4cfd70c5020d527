-- ===== src/Controller.antt =====
-- internal/controller: the reconcilers.
pub mod Resource
pub mod World
pub mod Sync
pub mod DeleteState
pub mod Create
pub mod Replacement
pub mod Settled
pub mod Deletion
pub mod Calls
pub mod Restraint
pub mod Leaks
pub mod Branches
pub mod Stored
pub mod Tests
pub mod Graph
pub mod Teardown
pub mod References
pub mod Provider
pub mod Reconcile
pub mod Watch
pub mod Composite
pub mod Revision
