-- ===== src/Hacker.antt =====
-- coupon-optimization-service: the "Hacker" cart optimizer
-- (apps/coupon-optimization-service/src/modules/hacker).
pub mod Types
pub mod Sorting
pub mod Filler
pub mod Algorithm
pub mod Mapping
pub mod Service
