-- ===== src/Serialization.antt =====
-- include/zerolancom/serialization and src/serialization: bytes, and the codec over msgpack.
pub mod ByteBuffer
pub mod ServiceHeader
pub mod Codec
