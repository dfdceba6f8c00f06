-- ===== src/Protocol.antt =====
-- src/stationchat/protocol: the requests of the chat protocol, their formats and their dispatch.
pub mod Requests
pub mod Formats
pub mod Dispatch
mod Examples
