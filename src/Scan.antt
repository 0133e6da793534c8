-- ===== src/Scan.antt =====
-- The scan list of src/scan: entries, systems, the bins that they are sorted into, and the walk
-- over the bins.
pub mod Text
pub mod Tree
pub mod Entry
pub mod System
pub mod Sorting
pub mod Bins
pub mod Rotation
pub mod Sentinel
