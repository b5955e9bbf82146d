-- ===== src/Demo.antt =====
-- packages/core/presidium-demo: the chat sessions of the demo node.
pub mod Envelopes
pub mod Session
pub mod Handshake
pub mod NodeStore
pub mod Group
pub mod App
mod Examples
