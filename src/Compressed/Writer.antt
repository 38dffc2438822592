-- ===== src/Compressed/Writer.antt =====
-- trace/compressed_writer.rs: the producer and the threads of a writer, as steps that interleave.
mod State
mod Produce
mod Compress
mod Steps
mod Sleep
mod Slices
mod Spans
mod Invariant
mod Order
mod Working
mod Filing
mod Room
mod Closing
mod Kept
mod Runs
mod Reached
mod Safety
mod Liveness
mod Rested
mod Awake
mod Examples
