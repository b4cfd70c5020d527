-- ===== src/Pulumido.antt =====
-- internal/pulumido: what a runner operation means to the controllers.
pub mod Runner
pub mod Inputs
pub mod Job
pub mod Methods
