-- ===== src/Tests.antt =====
-- The theorems at concrete inputs, and runs of the code.
mod Doubles
mod Conditions
mod Minutes
mod Devices
mod Tasks
mod Schedules
mod Relaying
mod Tables
mod Rules
mod Accounts
mod Races
mod Web
mod Prototype
mod Bridging
mod Workers
mod Config
mod Boot
