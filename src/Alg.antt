-- ===== src/Alg.antt =====
-- src/sched-lib/alg: the plugins that are loaded, and their algorithms.
pub mod LibBinding
pub mod Algorithm
pub mod AlgorithmFactory
