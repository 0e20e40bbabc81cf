-- ===== src/Examples.antt =====
-- The theorems at concrete inputs, and runs of the definitions.
mod Policies
mod Agents
mod Messages
mod Handles
mod Records
mod Wire
mod Relays
mod Tools
mod Loads
mod Saves
mod Vaults
