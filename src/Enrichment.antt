-- ===== src/Enrichment.antt =====
-- internal/enrichment: the enrichers of a snapshot and their pipeline.
pub mod Ownership
pub mod Aggregation
pub mod Targets
pub mod Pipeline
