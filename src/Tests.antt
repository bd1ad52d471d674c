-- ===== src/Tests.antt =====
-- Runs of the model at concrete inputs.
mod Memory
mod Spaces
mod Files
mod Processes
mod Library
mod Threads
mod Heap
mod Calls
