-- ===== src/Tests.antt =====
-- The theorems applied to concrete packets, streams, transfers and command lines.
mod Protocol
mod Transfer
mod Commands
mod Simulators
mod Start
mod Targets
mod Table
mod Served
