-- ===== src/Network.antt =====
-- packages/core/presidium-network: frames, topics, bootstrap addresses and the node.
pub mod Codec
pub mod Topics
pub mod Discovery
pub mod Messages
pub mod Node
mod Examples
