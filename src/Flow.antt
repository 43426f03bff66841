-- ===== src/Flow.antt =====
-- core/src/flow: flow objects, how they execute, the pipelines that wire them and the missions that
-- join pipelines.
mod Tests
pub mod Any
pub mod Messages
pub mod Graph
pub mod Execute
pub mod Pipeline
pub mod Mission
