-- ===== src/Ctrl.antt =====
-- src/sched-lib/ctrl: the requests of the daemon.
pub mod Commands
pub mod Processor
pub mod Receiver
pub mod Responses
pub mod Sender
pub mod SchedulingInfo
