-- ===== src/Agent.antt =====
-- apps/context-agent: requests of the local API, the policy of reads, and the reads it guards.
pub mod Policy
pub mod ReadCapability
pub mod ContentRead
pub mod Requests
pub mod Collector
pub mod Samplers
pub mod Captures
pub mod Runtime
