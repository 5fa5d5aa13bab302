-- ===== src/Examples.antt =====
-- The theorems at concrete inputs, and runs of the code: of turn.py, context_budget.py and
-- llm_context.py, of summarization.py, of the tools package, of runtime.py, and of the control plane.
pub mod Turns
pub mod Contexts
pub mod ToolCalls
pub mod Runtimes
pub mod Pipelines
pub mod Histories
pub mod Summaries
pub mod ControlPlanes
