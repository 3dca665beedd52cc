-- ===== src/Domain.antt =====
-- hobo/domain: the desk as it is seeded.
pub mod Seed
pub mod Tests
