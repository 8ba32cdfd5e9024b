-- ===== src/Examples.antt =====
-- The theorems at concrete inputs.
mod Data
mod Requests
mod Slots
mod Server
mod Runs
mod Answers
mod Files
