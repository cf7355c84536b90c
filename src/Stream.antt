-- ===== src/Stream.antt =====
-- The C++ streams (src/FtdiStream*.cpp, src/internal.h and include/sgftdi/ftdistream.h).
pub mod State
pub mod Slot
pub mod Callbacks
pub mod Events
pub mod Step
pub mod Gathered
pub mod Stopped
pub mod Ends
pub mod Setup
pub mod Control
pub mod Fit
pub mod Start
pub mod Planned
pub mod Created
pub mod Started
pub mod Leads
pub mod Prepared
pub mod Passed
pub mod Owner
