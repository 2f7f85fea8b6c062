-- ===== src/Tests.antt =====
-- Runs of the model on concrete input, and instances of the theorems.
mod Matchers
mod Query
mod Records
mod Store
mod Incidents
mod Scheme
mod Parse
mod Paths
mod Times
mod Values
mod Logs
mod Endpoint
mod Tokens
mod Errors
