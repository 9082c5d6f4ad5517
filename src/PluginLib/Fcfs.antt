-- ===== src/PluginLib/Fcfs.antt =====
-- src/plugin-lib/fcfs_implementation.h and fcfs_implementation.cpp: first come, first served.
-- `NodeRef *` is shared between the clusters' vectors and the gang's jobs, so a reference is a
-- number, `when_free_` is kept in a store by reference, and the vectors hold references with
-- their constant node. `SwmTimetable *` into the result vector is an index.
pub mod Errors
pub mod Requests
pub mod Selection
pub mod Single
pub mod Schedule
pub mod Choice
pub mod Placing
pub mod Returns
pub mod History
pub mod Shift
pub mod Plan
pub mod Adding
pub mod Aligning
pub mod Progress
pub mod Entering
pub mod Rounds
pub mod Guarantee
pub mod Fresh
mod Tests
