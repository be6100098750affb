-- ===== src/Tests.antt =====
-- Runs of the modelled functions on concrete inputs, and each theorem at one of them.
mod Calls
mod Threads
mod Entry
mod Demo
mod Logging
mod Program
mod Stops
mod Commands
mod Joining
mod Publishing
