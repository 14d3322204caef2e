-- ===== src/Server.antt =====
-- Server.cpp: the robot factory server. Every server runs the same program; the one that customers
-- write to is the primary, and sends each entry of its log to the others, the replicas.
pub mod State
pub mod Replica
pub mod Primary
pub mod Restart
pub mod Engineer
pub mod Arguments
pub mod Cluster
pub mod Durable
pub mod Threads
pub mod Listeners
pub mod Main
