-- ===== src/Dcgm.antt =====
-- internal/collector/gpu: what dcgm-exporter says of the GPUs.
pub mod Labels
pub mod Lines
pub mod Devices
pub mod Collector
