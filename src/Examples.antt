-- ===== src/Examples.antt =====
-- The programs of examples/.
pub mod Arguments
pub mod Consumer00
pub mod Producer00
pub mod Numbering
pub mod Performance00
pub mod Performance01
pub mod Measuring
pub mod Counting
pub mod Options
pub mod Ports
