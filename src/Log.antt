-- ===== src/Log.antt =====
-- The logging stream and the asynchronous back end of src/base.
pub mod Stream
pub mod Async
pub mod File
pub mod SmallFile
pub mod Text
pub mod Line
