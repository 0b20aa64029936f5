-- ===== src/Examples.antt =====
-- The theorems of the development at concrete inputs.
mod Intervals
mod Sound
mod Stored
mod Instances
mod System
mod Mapping
mod Storage
mod Objects
mod Catalog
