-- ===== src/Dpkg.antt =====
-- internal/dpkg: the Debian package index.
pub mod Deps
pub mod Provides
pub mod Materialize
pub mod Tests
