-- ===== src/Tests.antt =====
-- Tests, and the theorems at concrete inputs.
mod Source
mod Operators
mod Rows
mod Packet
mod Storage
mod TableSpace
mod Joins
mod Sort
mod HashJoin
mod Group
