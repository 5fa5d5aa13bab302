-- ===== src/Tools.antt =====
-- The tool subsystem, packages/tools/src/xymphony_tools: argument validation, the registry and the
-- executor.
pub mod Domain
pub mod Validation
pub mod Registry
pub mod Executor
