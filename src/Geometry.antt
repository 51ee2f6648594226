-- ===== src/Geometry.antt =====
-- src/geometry: the cyclic order of the members of a region.
pub mod Cyclic
pub mod Tests
