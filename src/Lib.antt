-- ===== src/Lib.antt =====
-- rd records and replays the execution of processes. This library models the parts of it below, each in
-- the files that its name leads to; paths are from the root of the repository.
--
-- Signal: src/sig.rs. Numbers of signals and the conversions to them.
--
-- WaitStatus: src/wait_status.rs. What waitpid reports of a task: the decoders (Decode) and constructors
-- (Decode) of a status. The macros of libc and the constants of the kernel are the interface Abi, whose
-- laws are the documented layout. Classify compares the decoders with that layout, Encode reads
-- constructed statuses back.
--
-- Scheduler: src/scheduler.rs and src/priority_tup.rs. Which task of a recording runs next. PrioritySet has
-- PriorityTup, its order, and a BTreeSet as a sorted list; State has the fields of Scheduler and the
-- operations that move tasks; Runnable has is_task_runnable, find_next_runnable_task,
-- validate_scheduled_task and setup_new_timeslice. Placed states what the comment on the fields of
-- Scheduler promises; Entries, Moves, Keep, Queue, Clear and Reachable show that it is kept; Search and
-- Find are about the search, Timeslice about the timeslice. A task is a number that stands for its weak
-- pointer, and the cells of a task are looked up by it. A priority is an i32 shifted by 2 ^ 31. Random
-- draws and comparisons of times are arguments; what is asked of a tracee is the parameter Tracees. The
-- fuel of the search is the size of the set and one more, which is enough since each round leaves at
-- least one element behind. Choose is the first loop of reschedule, Waiting its loop over waitpid, and
-- Reschedule the whole; Ready, Rounds and Chosen show that the first loop ends, WaitKept and Returns how
-- reschedule does. The fuel of the first loop is the length of the queue, the rounds that fall in an
-- interval and one more; the loop over waitpid may go on for ever, and is cut after a number of reports;
-- WaitFails says which assertions can fail in it. The ticks of a task are read from the tracees, since each
-- wait changes them. Reachable takes reschedule by its parts.
-- Not modelled: the intervals of chaos mode in floating point, and the affinity mask.
--
-- RemotePtr: src/remote_ptr.rs. Addresses in a tracee, as 64-bit numbers that wrap. MemoryRange:
-- src/session/address_space/memory_range.rs. Ranges of addresses and their order as keys.
--
-- Util: src/util.rs. Pages rounds to pages of 4096 bytes (sysconf on x86), Search is the search for a string
-- of bytes.
--
-- AddressSpace: src/session/address_space.rs and src/session/address_space/kernel_mapping.rs, what an
-- address space knows of its mappings. KernelMapping has one mapping as the kernel lists it; MemoryMap the
-- map from MemoryRangeKey to Mapping, a BTreeMap as a list that the order of the keys searches; Space the
-- state, for_each_in_range and unmap_internal; Adjacent which mappings are parts of one, and the merge of
-- lines of /proc/pid/maps; Coalesce has coalesce_around and map_and_coalesce; DontFork remove_range and
-- add_range; Map has map, unmap and advise; Protect has protect. View says what a map says of one address,
-- which is what all proofs compare: protection, flags, device, inode and place in the file of the mapping
-- and of the recorded one, emulated file, local copy and mapping flags, not the names or the `stat`. Parts,
-- First, Insert, Clear, Piece, Stage, Unmapper, Unmap and Gap are about unmapping, Joined, Zipper, Chain, Run,
-- Coalesced and Around about coalescing, Overlap, Repainted and Protected about protect, and Mapped about
-- map. The fuel of for_each_in_range is the number of the end of its region, since each round moves on by
-- an address at least; that of remove_range is 2, which a set without a double does not use up. A shared
-- pointer and a `stat` are numbers. munmap of rd's own copy of a mapping is taken to succeed and is written
-- down in the state, and so is each call of update_watchpoint_values.
--
-- Breakpoints: src/session/address_space.rs. The counts of each breakpoint and the bytes that they overwrote.
-- The memory of the tracees is the parameter Tracee. Table, Counts, Represents and Counted lead from the
-- table to counts of an address over a memory without breakpoints, Sequence to sequences of calls.
--
-- Watchpoints: src/session/address_space.rs. Split cuts a range into aligned pieces, Registers asks for a debug
-- register for each, Covered says what they watch. The fuel of split_range is the size of the range and one
-- more, since each round cuts off a byte at least.
--
-- Not modelled of these two files: remap, find_free_memory, brk, the page of rd in the tracee, verify, the
-- vdso, watchpoints as a table with values, and breakpoints after a write to the tracee.
--
-- TaskishUid: src/taskish_uid.rs. The identities of tasks and address spaces, and their order.
--
-- FdTable: src/fd_table.rs. The monitored file descriptors of a task. Table has the table and its operations,
-- with the HashMap as a list of entries; Lookup, Counted and Disabled are about what it has, its count of
-- descriptors beyond the limit, and what is told to the preloaded library. Not modelled: the calls that hand
-- on to a monitor.
--
-- GdbConnection: src/gdb_connection.rs. The connection to gdb as a state with two buffers and two ends of a
-- socket. Write and Flush make and send packets, Read finds a packet in the input and reads escaped data,
-- ByteSearch is the interface of the memchr crate. Frame, Escape and Xfer are about what is read back from
-- what was written, Split about packets that come in parts. What each read and write of the socket returns
-- is part of the state, so loops end when it is used up. Not modelled: the parsing of each request and the
-- replies.
--
-- GdbExpression: src/gdb_expression.rs. The interpreter of gdb's agent expressions. Word has the arithmetic
-- of 64-bit words, State the operations on the state, Step the instructions, Evaluate the loops over steps
-- and over the variants of the bytecode. Reads of registers and memory of the tracee are the parameter Task.
-- The bound on steps is the source's (10000). A step panics as a debug build does. Panics is about that,
-- Agree about the variants, and Compile gives expressions their meaning and their code.
--
-- Compressed: src/trace/compressed_reader.rs, src/trace/compressed_writer.rs, and read_to_end and write_all
-- of src/util.rs. The streams of a trace are files of blocks that brotli compressed. File has the blocks and
-- the parameters: Brotli is the library, and a File says how much each pread gives. Reader has the reader;
-- Disk, Blocks and Reads are about reads, Saved about saved states and rewinding, Skipping about skip, at_end
-- and the count of the bytes. Writer/State has the fields of the writer with what each thread and the
-- producer stand at, Writer/Produce what the producer does (write, update_reservation, close),
-- Writer/Compress what a thread does with a block (the body of the closure in new, do_compress, write_all),
-- and Writer/Steps interleaves them in any order. Writer/Sleep adds the condition variable: who sleeps in
-- cond_var.wait takes no step before a notify_all or a spurious wake-up. The bytes that all the calls of
-- write hand over are the parameter stream. Spans says that the blocks of the threads lie side by side, Order
-- that the loops over thread_pos find the first of them, Invariant what holds between steps; Working, Filing,
-- Room, Closing, Kept, Runs and Reached show that steps keep it, Safety and Liveness what follows, Rested and
-- Awake that no wake-up is lost. A loop over reads of the file has fuel, with theorems that say how much is
-- enough. The output buffer of a thread is taken to be large enough. Not modelled: fsync, files that cannot
-- be opened, and errors of the file system.
--
-- Prelude has what the modules share: Boolean tests, lists measured by native numbers, and facts on bits.
--
-- Bytes are numbers below 256; arithmetic on words keeps its wrap-around. `none` stands for a panic where a
-- definition says so. Not modelled: the sessions that drive tracees by ptrace, the frames of a trace, the gdb
-- server, registers, and the command line, which are system calls, tables and text for the most part.
pub mod Prelude
pub mod AddressSpace
pub mod Breakpoints
pub mod Compressed
pub mod FdTable
pub mod GdbConnection
pub mod GdbExpression
pub mod MemoryRange
pub mod RemotePtr
pub mod Scheduler
pub mod Signal
pub mod TaskishUid
pub mod Util
pub mod WaitStatus
pub mod Watchpoints
