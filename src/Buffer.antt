-- ===== src/Buffer.antt =====
-- core/buffer: the growing byte writer (core/buffer/writer.go), the reader (core/buffer/reader.go)
-- and the chained buffer (core/buffer/nocopy_buffer.go, core/buffer/nocopy_node.go).
pub mod Slices
pub mod Writer
pub mod Reader
pub mod Nocopy
pub mod Pool
mod Tests
