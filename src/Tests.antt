-- ===== src/Tests.antt =====
-- The theorems at work on a small bank: two accounts, and two threads.
mod Fixtures
mod Setup
mod Runs
mod Whole
mod Steps
mod Lines
mod Files
mod Serial
mod Pins
mod Program
mod Texts
