-- ===== src/Http.antt =====
-- src/utilis/HttpParser.h: reading an HTTP request out of a WebSocket message, and writing an HTTP
-- response as text.
pub mod Parser
pub mod Response
