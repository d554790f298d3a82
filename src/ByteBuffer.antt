-- ===== src/ByteBuffer.antt =====
-- containers/bytebuffer.c: a queue of bytes, fixed (circular, over an area of an arena) or dynamic
-- (both heads are -1, and the bytes stand at the front of a `malloc` area).
-- A pointer into the buffer's memory is an index; a NULL out-pointer is a flag of the call. The
-- log calls are left out. `realloc` is a parameter.
mod Defs
mod Ops
pub mod Fixed
pub mod Write
pub mod Dynamic
pub mod Read
pub mod Back
pub mod Regions
pub mod WriteRegions
pub mod Tests
unfoldable pub use Defs.*
unfoldable pub use Ops.*
