-- ===== src/Resp3.antt =====
-- include/boost/redis/resp3: the wire protocol.
pub mod Types
pub mod Node
pub mod Reply
pub mod Parser
pub mod Serialization
pub mod Examples
