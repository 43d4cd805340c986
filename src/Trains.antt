-- ===== src/Trains.antt =====
-- The code under trains/, which computes how trains move.
pub mod Root
pub mod Physics
pub mod Motion
