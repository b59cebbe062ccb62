-- ===== src/Examples.antt =====
-- Runs of the modelled code on concrete data, and the theorems at concrete inputs.
mod Data
mod Jobs
mod Schedules
mod Services
mod Rows
mod Expressions
mod Imports
mod Handlers
mod Setup
mod Tenants
