-- ===== src/Routing.antt =====
-- service/proxy.go and service/shard.go: which backend a request goes to. Host, Pruning and Shard
-- hold the three implementations of the interface `Proxies`, Selection holds NewProxies. ProxyMaps
-- is about the maps of reverse proxies, Routes describes where requests should go, Heights and
-- Fallbacks prove it for requests with and without a parsed block number.
pub mod Host
pub mod Pruning
pub mod Shard
pub mod Selection
pub mod ProxyMaps
pub mod Routes
pub mod Heights
pub mod Fallbacks
