-- ===== src/Decimal.antt =====
-- Python's `Decimal`, in which the money stages compute: an interface, the laws that theorems assume
-- of it, and a fixed-point arithmetic that meets them.
pub mod Context
pub mod FixedPoint
pub mod ExactSums
pub mod ExactFixedPoint
pub mod FixedGrid
