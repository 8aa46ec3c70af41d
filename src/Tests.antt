-- ===== src/Tests.antt =====
-- Runs of the model on concrete inputs, and the theorems applied to them.
mod Fixtures
mod Templates
mod Policies
mod Balancing
mod Caching
mod Storing
mod Serving
mod Proxying
mod Routing
mod Tables
