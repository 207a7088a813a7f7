-- ===== src/Tests.antt =====
-- The theorems on concrete warehouses.
mod Data
mod Domain
mod Service
mod Requests
mod Adapters
