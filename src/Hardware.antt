-- ===== src/Hardware.antt =====
-- The directory hardware/: what the kernel asks of the board. A register that hardware fills is
-- an argument of the function that reads it.
pub mod Timer
pub mod Uart
pub mod Device
