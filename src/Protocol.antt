-- ===== src/Protocol.antt =====
-- common/include/Protocol.hpp and server/src/protocol: the frames of messages and what is read from
-- the payload of a message.
pub mod Frame
pub mod Payload
pub mod Codes
pub mod Messages
pub mod Builder
