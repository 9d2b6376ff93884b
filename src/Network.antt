-- ===== src/Network.antt =====
-- pkg/network/resolver.go: the resolution of FQDNs.
pub mod Errors
pub mod Result
pub mod Aggregate
pub mod Lookup
pub mod Resolve
pub mod Dial
