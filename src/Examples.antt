-- ===== src/Examples.antt =====
-- Concrete inputs for the theorems, each with the theorem applied to it.
mod Ledgers
mod Recovery
mod Keys
mod Circuits
mod Routes
mod Plans
mod Chains
mod Runs
mod Streams
mod Calls
mod Schemas
mod Bodies
mod Failures
