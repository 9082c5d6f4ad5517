-- ===== src/Auxl.antt =====
-- src/sched-lib/auxl: the auxiliary classes that the rest of the scheduler is built from.
pub mod MyQueue
pub mod Metrics
pub mod TimeCounter
pub mod CliArgsParser
