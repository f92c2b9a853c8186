-- ===== src/Quality.antt =====
-- The quality inspection of completed work orders (apps/ai-service/app/quality).
pub mod Labels
pub mod Rules
pub mod Schema
pub mod Aggregator
pub mod Models
pub mod Errors
pub mod Jobs
pub mod Intake
pub mod Lifecycle
pub mod Store
pub mod Inputs
pub mod Request
pub mod Results
pub mod Processor
pub mod Worker
pub mod Loops
pub mod Feed
pub mod Callback
pub mod Samples
mod Tests
mod RunTests
mod ProcessorTests
