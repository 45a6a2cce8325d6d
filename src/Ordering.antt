-- ===== src/Ordering.antt =====
-- Fractional ordering (apps/api/src/common/position).
pub mod Number
pub mod Fractional
pub mod Slots
pub mod Chain
pub mod Respread
pub mod Tables
pub mod Placement
