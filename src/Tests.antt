-- ===== src/Tests.antt =====
-- Concrete runs of the definitions, and each theorem applied at a concrete input.
mod JsonTree
mod Storage
mod RoundTrips
mod Data
mod Dedup
mod Middleware
mod Core
mod Router
mod Adapters
mod Traffic
mod Runtime
mod Tuning
mod OnebotV11
mod Official
mod Lagrange
mod Plugins
mod Satori
mod Server
mod Servers
