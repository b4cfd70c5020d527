-- ===== src/Controller/Composite.antt =====
-- internal/controller/composite_render.go: how a definition's templates become resources.
pub mod Expressions
pub mod Names
pub mod Bounds
pub mod Plain
pub mod Values
pub mod Children
pub mod Outputs
pub mod Filled
pub mod Mixed
pub mod Substitution
pub mod Named
pub mod Tests
