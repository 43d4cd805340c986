-- ===== src/User.antt =====
-- The tasks under user/ that serve others by messages.
pub mod Messages
pub mod Clock
pub mod Track
pub mod Terminal
pub mod Names
pub mod Switches
pub mod Format
pub mod Driver
pub mod Commander
pub mod Yard
pub mod Commands
pub mod Office
pub mod Sensors
