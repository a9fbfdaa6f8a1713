-- ===== src/Examples.antt =====
-- The theorems at concrete inputs.
mod Data
mod Sending
mod Running
mod Collecting
mod Building
mod Assembling
mod Scraping
mod Whole
mod Configuring
mod Polling
mod Converting
pub mod Nodes
pub mod Informing
mod Starting
