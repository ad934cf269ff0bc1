-- ===== src/Examples.antt =====
-- Runs of the theorems at concrete inputs, in a module for each part of the program.
mod Scanning
mod Encoding
mod Chunks
mod Types
mod Sets
mod Profiles
mod Machines
mod Tables
mod Parsing
