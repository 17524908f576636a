-- ===== src/Tests.antt =====
-- Concrete tables, services and calls, and the theorems applied to them.
mod Data
mod Tables
mod Commands
mod Departures
mod Wire
mod Serving
mod History
