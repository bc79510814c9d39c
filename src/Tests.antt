-- ===== src/Tests.antt =====
-- Concrete third-party parts that meet the assumed behaviour, and the theorems at concrete inputs.
mod Inbox
mod Simulation
mod Draining
mod Wire
mod Reads
mod Writes
mod Host
mod Socket
mod Tick
mod Closes
mod System
mod Outbound
mod Config
mod Runtime
mod Descriptors
mod ServerSocket
