-- ===== src/Tests.antt =====
-- Runs of the models on concrete inputs, and the theorems at such inputs.
mod Lifts
mod Lines
mod Safeties
mod Motors
mod Batteries
mod Setups
mod Buses
mod Drives
mod Nodes
mod Crevises
mod Bases
mod Sockets
mod Paths
mod Races
mod Lives
mod Wires
mod Locks
