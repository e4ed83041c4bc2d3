-- ===== src/Examples.antt =====
-- Runs of the modelled code at concrete inputs, and the theorems applied to them.
mod Texts
mod Requests
mod Checks
mod Reports
mod Definitions
mod Scheduling
mod Sending
mod Suites
mod Catalogs
mod Commands
