-- ===== src/Tests.antt =====
-- Runs of the definitions on concrete inputs, and the theorems at concrete inputs.
mod Pipes
mod Scheduler
mod Users
mod Descriptors
mod Memory
mod Devices
mod Images
mod Files
mod FdCalls
mod Busy
