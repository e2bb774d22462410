-- ===== src/Apkindex.antt =====
-- internal/apkindex: Alpine's package index.
pub mod Dep
pub mod Tests
pub mod Version
pub mod Entry
pub mod Index
pub mod Provides
pub mod Materialize
