-- ===== src/Pimpl.antt =====
-- src/raspa_pimpl.h: class RaspaPimpl, which opens the driver, lays its buffers out, starts the real
-- time task and runs the user's callback for each interrupt.
pub mod Layout
pub mod State
pub mod DriverInfo
pub mod Buffers
pub mod Converters
pub mod Lifecycle
pub mod Cleanup
pub mod Instances
pub mod Consistent
pub mod CleanupCodes
pub mod Close
pub mod Chain
pub mod ChannelSetup
pub mod Stages
pub mod LateStages
pub mod OpenState
pub mod Opened
pub mod UserCallback
pub mod Packets
pub mod RtLoop
pub mod Stopping
pub mod Downsampling
pub mod Settling
pub mod Tests
pub mod RtTests
pub mod PeriodTests
pub mod Queries
pub mod UserInput
pub mod UserOutput
pub mod Pairing
pub mod UserPeriod
pub mod StopFlag
pub mod DriverMemory
