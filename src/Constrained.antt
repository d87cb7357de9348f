-- ===== src/Constrained.antt =====
-- week53_constrained_resource_programming/constrained.c, a module for each of its facilities.
pub mod Fixed
pub mod Pool
pub mod Ring
mod Tests
