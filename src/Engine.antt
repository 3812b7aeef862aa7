-- ===== src/Engine.antt =====
-- The package packages/poker-engine: one child for each of its source files, and their proofs.
pub mod Error
pub mod Cards
pub mod Table
pub mod Hand
pub mod Commands
pub mod Progress
pub mod Reducer
pub mod Legal
pub mod Invariants
pub mod Players
pub mod Evaluator
pub mod Pots
pub mod Showdown
pub mod Lifecycle
pub mod Advance
pub mod Rounds
pub mod Samples
mod Witnesses
