-- ===== src/Index.antt =====
-- common/src/index.rs: the index of a fragment.
pub mod Scalar
pub mod Order
pub mod Build
pub mod Lookup
pub mod Inserted
pub mod Tests
