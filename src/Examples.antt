-- ===== src/Examples.antt =====
-- Concrete inputs: an interpreter, its objects and its sessions, and the theorems of the other
-- modules at them.
mod Values
mod Runtime
mod Starts
mod Conversions
mod Frames
mod Faults
mod Calls
mod Objects
mod Answers
mod Sessions
mod Ledgers
