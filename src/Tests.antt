-- ===== src/Tests.antt =====
-- Concrete inputs on which the theorems apply.
mod Generation
mod Batching
mod Service
mod Steps
mod Kernels
mod Entities
mod PaddedBatches
mod PaddedSteps
mod PaddedJoins
