-- ===== src/Bridge.antt =====
-- liandanlu_native/desktop_bridge.py: framed messages over a Unix socket, the handshake with the
-- desktop bridge, and requests to it.
pub mod Frames
pub mod Stream
pub mod RoundTrip
pub mod Limits
pub mod Session
pub mod Client
pub mod Responses
pub mod Answers
pub mod Offers
pub mod Greeting
pub mod Handshake
