-- ===== src/SchedExe.antt =====
-- src/sched-exe: the program's command line.
pub mod CliArgs
