-- ===== src/Tests.antt =====
-- Concrete runs of the code, at which the theorems' hypotheses hold.
mod Memory
mod Tables
mod Shared
mod Io
mod Names
mod Modules
mod Input
mod Devices
mod Disk
mod Fs
mod Kv
mod Gamepads
