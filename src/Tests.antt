-- ===== src/Tests.antt =====
-- Runs of the model on small inputs, and the theorems applied to them.
mod Pages
mod Reserves
mod Chunks
mod Nodes
mod Bottom
mod Clock
mod Threads
mod Signals
mod Bytes
mod Calls
mod Blobs
mod Archives
mod Commands
mod Devices
mod Traps
mod Boots
