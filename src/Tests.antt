-- ===== src/Tests.antt =====
-- The theorems at concrete inputs, and runs of the code on them.
mod Data
mod Logs
mod Seals
mod Talks
mod Packets
mod Sessions
mod Notifications
mod Buffers
mod Accepts
mod Alarms
mod Clients
mod Systems
