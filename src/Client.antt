-- ===== src/Client.antt =====
-- src/exosite.c: the client of the Exosite One Platform.
pub mod Op
pub mod State
pub mod Message
pub mod Send
pub mod Payload
pub mod Handlers
pub mod Receive
pub mod Operate
pub mod History
