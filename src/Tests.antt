-- ===== src/Tests.antt =====
-- The theorems at concrete inputs, and tests of the definitions by evaluation.
mod Storage
mod Writing
mod Descriptors
mod Lists
mod Timers
mod Kernel
mod Texts
mod Pages
mod Calls
mod Consoles
mod Folders
mod Transfers
mod Sessions
mod Pools
mod Prompts
