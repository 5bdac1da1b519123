-- ===== src/Examples.antt =====
-- Witnesses: the theorems at concrete inputs.
mod Decision
mod Ladder
mod Pending
mod Agent
mod Queue
mod Lease
mod Edits
mod Graphs
mod EventLog
mod Protocol
mod Deontic
mod Positions
mod Override
