-- ===== src/Checks.antt =====
-- Tests of the model on concrete inputs, and the theorems at inputs that meet their hypotheses.
mod Calls
mod Clients
mod Codec
mod Conversions
mod Data
mod Deadlock
mod Loading
mod Loads
mod Machine
mod Ports
mod Runs
mod Starting
mod Strings
mod System
mod Threads
mod Transfers
mod Writing
