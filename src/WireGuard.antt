-- ===== src/WireGuard.antt =====
-- The WireGuard tunnel manager (src/WireGuardManager.cpp): `Address` reads the tunnel address,
-- `State` holds the module's variables, `Manager` the start, stop and periodic step, `Config` the
-- setters and the flash storage, `Resolver` the DNS task beside the loop.
pub mod Address
pub mod State
pub mod Manager
pub mod Config
pub mod Calls
pub mod Invariant
pub mod Opening
pub mod Storage
pub mod Backoff
mod Tests
pub mod Resolver
