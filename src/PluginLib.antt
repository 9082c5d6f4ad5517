-- ===== src/PluginLib.antt =====
-- src/plugin-lib: what the scheduling plugins share, the FCFS algorithm first of all.
pub mod Entities
pub mod ExtendedRh
pub mod Fcfs
