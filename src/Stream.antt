-- ===== src/Stream.antt =====
-- stream/: event pipelines over a key/value store. A module for each part.
pub mod Store
pub mod KvStore
pub mod Scoped
pub mod Cursor
pub mod Watermark
pub mod Deduper
pub mod Polling
pub mod Subject
