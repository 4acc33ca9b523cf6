-- ===== src/Monitor.antt =====
-- hub/monitor.py: the checks of one poll cycle and the alerts that they raise.
pub mod Watch
pub mod Local
pub mod Fleet
pub mod Workflows
pub mod Poll
pub mod Coverage
pub mod Gate
pub mod Groups
