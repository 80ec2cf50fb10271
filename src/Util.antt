-- ===== src/Util.antt =====
-- software/user/litepcie_util.c: the loopback test of the DMA engines.
pub mod Pattern
pub mod Mask
pub mod Check
pub mod Delay
pub mod Loopback
pub mod FlashTool
pub mod FlashRead
pub mod Board
