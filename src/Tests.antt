-- ===== src/Tests.antt =====
-- Runs of the theorems on a small bench: a device that accepts all that it is sent and answers every
-- bulk read with two packets.
mod Bench
mod Control
mod Baud
mod Transfers
mod Device
mod Eeprom
mod Memory
mod Image
mod Async
mod Open
mod Stream
mod Owner
