-- ===== src/LoadBalancer.antt =====
-- load_balancer: the proxy between the clients and the factories.
pub mod Messages
pub mod Connect
pub mod Arguments
pub mod Proxy
pub mod Socket
pub mod Stubs
pub mod Listen
