-- ===== src/Programs.antt =====
-- src/apps: what the programs beside the library do in its callback.
pub mod Loopback
pub mod LoopbackPeriod
pub mod SignalRecorder
pub mod Tone
pub mod Rows
pub mod Recording
pub mod Periods
pub mod Allocation
pub mod Recorder
pub mod ChannelCheck
pub mod Tests
