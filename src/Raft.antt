-- ===== src/Raft.antt =====
-- Replication: mokv/raft/raft_log.hpp on mokv/utils/ring_buffer_queue.hpp, and mokv/raft/pod.hpp.
pub mod Ring
pub mod Log
pub mod Pod
pub mod Clients
pub mod Sync
