-- ===== src/Tests.antt =====
-- The theorems of the other modules at concrete inputs.
mod Data
mod Irq
mod Transfer
mod Engines
mod Files
mod Devices
mod Ptp
mod User
mod Receiver
mod Sender
mod Tools
mod Stream
mod Util
mod Flash
mod Probe
