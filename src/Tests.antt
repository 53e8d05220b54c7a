-- ===== src/Tests.antt =====
-- Runs of the theorems on concrete inputs: a store in memory, small statements and byte strings.
mod Values
mod Tables
mod Requests
mod Properties
mod Ranges
mod Printed
mod Assignments
mod Fused
mod Queries
mod Caches
mod Statements
mod Catalogs
mod Clauses
mod Undefined
