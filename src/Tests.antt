-- ===== src/Tests.antt =====
-- Runs of the modelled code on concrete inputs.
mod Data
mod Models
mod Handlers
mod Billing
mod Fleet
mod Traffic
mod Account
mod Sweeps
mod Organizations
