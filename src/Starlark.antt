-- ===== src/Starlark.antt =====
-- internal/starlark: the evaluated project.
pub mod Units
pub mod Projects
pub mod Views
pub mod Provided
pub mod Topo
pub mod Tests
