-- ===== src/Runtime.antt =====
-- The orchestration core, packages/agent-runtime/src/xymphony_runtime: runtime.py with context.py,
-- dispatch.py and cancellation.py.
pub mod State
pub mod Dispatch
pub mod Turns
pub mod Inputs
pub mod Quiet
pub mod Invariant
pub mod Keeps
pub mod Cancelling
pub mod Interruption
pub mod Failing
pub mod Failure
pub mod Operations
pub mod Stopping
pub mod Tasks
pub mod Working
pub mod Owning
pub mod Reach
