-- ===== src/Baud.antt =====
-- Baud rates (src/ftdi.c): the divisor for a rate, its encoding in the chip's registers, and the
-- request that sets it. C's int arithmetic is written without its overflow, which is undefined there:
-- it needs a rate of more than 107,374,182, or 214,748,364 on the H chips, over 4 in bitbang mode.
mod Clock
mod Rate
pub mod Register
pub mod Am
pub mod Chip
pub mod Set
unfoldable pub use Clock.*
unfoldable pub use Rate.*
