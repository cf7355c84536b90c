-- ===== src/Async.antt =====
-- Asynchronous transfers (src/ftdi.c, struct ftdi_transfer_control of include/sgftdi/ftdi.h).
pub mod Transfer
pub mod Write
pub mod Read
pub mod Wait
pub mod Sent
pub mod Received
pub mod Reads
pub mod Pending
pub mod Finish
