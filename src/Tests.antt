-- ===== src/Tests.antt =====
-- Runs of the model on small values, and an instance of each theorem.
mod Values
mod Parsers
mod Rows
mod Users
mod Worlds
mod Cached
mod Tokens
mod Requests
mod Tenants
mod Apps
mod Routes
mod Keys
mod Checks
mod Commands
mod Serving
mod Logins
mod Models
mod Logs
mod Traces
mod Services
mod Wired
