-- ===== src/Std.antt =====
-- What the gateway uses of the C++ standard library: string streams and number conversions.
pub mod Stream
pub mod Number
