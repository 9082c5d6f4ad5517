-- ===== src/Chn.antt =====
-- src/sched-lib/chn: chains of algorithms, each with a worker thread.
pub mod Chain
pub mod ChainController
