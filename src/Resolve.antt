-- ===== src/Resolve.antt =====
-- internal/resolve: the dependency graph of a project.
pub mod Runtime
pub mod Containers
pub mod Edges
pub mod Dag
pub mod Sort
pub mod Walk
pub mod Tests
