-- ===== src/Compressed.antt =====
-- trace/compressed_writer.rs and trace/compressed_reader.rs: the streams of a trace.
mod File
mod Disk
mod Reader
mod Blocks
mod Reads
mod Saved
mod Skipping
mod Codec
mod Writer
mod Examples
