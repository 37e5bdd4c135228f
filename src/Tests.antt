-- ===== src/Tests.antt =====
-- Runs of the code on concrete inputs: the theorems applied where their hypotheses hold.
mod Kernel
mod World
mod Database
mod Drives
mod Told
mod Program
mod Modes
mod Script
mod Locale
