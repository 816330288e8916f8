-- ===== src/DriverConfig.antt =====
-- src/driver_config.h: the enumerations of the driver interface, its parameters read through
-- sysfs, and the checks of the codec format and of the driver version.
mod Types
mod Params
pub mod Atoi
pub mod Version
pub mod Tests
pub use Types.*
unfoldable pub use Params.*
