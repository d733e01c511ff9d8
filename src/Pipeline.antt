-- ===== src/Pipeline.antt =====
-- automation_file/pipeline: the task graph, the data model of a run, and the run loop.
pub mod Graph
pub mod Model
pub mod Worker
pub mod Runner
pub mod Substitution
pub mod Planning
pub mod Records
