-- ===== src/Tests.antt =====
-- Runs of the program at concrete inputs.
pub mod World
mod AtServer
mod Run
mod Crash
mod Listen
mod Failover
mod Messages
mod Log
mod Replica
mod Cluster
mod Primary
mod Restart
mod Proxy
mod Pieces
mod SendLog
mod Client
mod Balancer
mod Arguments
mod Reads
mod Threads
