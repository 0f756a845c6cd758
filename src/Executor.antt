-- ===== src/Executor.antt =====
-- src/executor/generic_executor.{h,cpp}.
pub mod Expression
pub mod Expressions
pub mod Runtime
pub mod Commands
pub mod Nodes
pub mod Tasks
pub mod Frame
pub mod Rollback
pub mod Semantics
pub mod Workers
