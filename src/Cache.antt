-- ===== src/Cache.antt =====
-- The cache of the gateway: app/api/core/cache.py.
pub mod Dicts
pub mod Items
pub mod L1
pub mod Breaker
pub mod Bounds
pub mod Calls
pub mod Lookups
pub mod Codec
pub mod Flights
pub mod Service
pub mod Redis
pub mod Manager
pub mod Tiered
pub mod Reads
pub mod Sources
pub mod Locks
pub mod Tidy
pub mod Landings
pub mod Commands
pub mod RoundTrip
pub mod Trips
mod Examples
