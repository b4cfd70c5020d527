-- ===== src/Runnerops.antt =====
-- internal/runnerops: the operations that a runner performs.
pub mod Path
pub mod Spec
pub mod Secrets
pub mod Packages
pub mod Failures
pub mod Machine
pub mod Commands
pub mod Engine
pub mod Fallback
pub mod Output
pub mod Stateless
pub mod Execute
pub mod PluginCache
