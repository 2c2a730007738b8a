-- ===== src/Time.antt =====
-- The calendar and clock parts of src/base.
pub mod Date
pub mod DateTime
pub mod Zone
pub mod ZoneFile
