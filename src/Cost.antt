-- ===== src/Cost.antt =====
-- gate/internal/cost: manifests turned into money.
pub mod Types
pub mod Quantity
pub mod Containers
pub mod Pods
pub mod Autoscaling
pub mod Kinds
pub mod Price
pub mod Estimating
pub mod Delta
