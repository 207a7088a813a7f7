-- ===== src/UseCases.antt =====
-- internal/application/usecases: one module per use case, over the repositories of `Store`.
pub mod Expiry
pub mod Allocate
pub mod Reserve
pub mod Revoke
pub mod ConfirmPick
pub mod Stow
pub mod CycleCount
pub mod RegisterBin
pub mod Classify
pub mod Queries
pub mod Wellformed
pub mod Conservation
pub mod Settled
pub mod Resolving
pub mod Picking
