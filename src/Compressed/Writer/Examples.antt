-- ===== src/Compressed/Writer/Examples.antt =====
-- The witnesses for a writer: runs of one thread, with blocks of two bytes.
use rd.Prelude.{
  ℕ, ◌+◌, ◌<◌, true, false, some, List, [], ◌∷◌, ◌≡◌, ◌≢◌, refl, arith, subst, ◌%◌, ◌⊎◌,
}
use rd.Compressed.File.{block_bytes, header_bytes, u32_bytes}
use rd.Compressed.Blocks.{concat, Blocks, file_bytes}
use rd.Compressed.Reader.{
  CompressedReader, read, skip, at_end, restore_state, get_state, rewind, uncompressed_bytes,
}
use rd.Compressed.Reader as R
use rd.Compressed.Codec.{keep, codec}
use rd.Compressed.Writer.State.{
  Writer, Phase, Producer, new, update, slice, completed_pos, earlier, is_before,
  other_thread_write_first,
}
use rd.Compressed.Writer.Produce.{
  poll, update_reservation, put_amount, copied, write_round, end_write, begin_close, end_close,
}
use rd.Compressed.Writer.Compress.{
  can_take, take_block, can_stop, stop, feed_amount, feed, compressed, start_write, write_some,
  end_round,
}
use rd.Compressed.Writer.Steps.{
  begins_write, writes, ends_write, begins_close, ends_close, takes, stops, feeds, compresses,
  starts_writing, writes_some, ends_writing, Reach, starts, steps,
}
use rd.Compressed.Writer.Safety.{one_writer, no_race, closed-file, write-read}
use rd.Compressed.Writer.Sleep.{
  the_producer, Sleepers, nobody, set_asleep, producer_must_wait, Runs, sleeps,
}
use rd.Compressed.Writer.Awake.{Reach-Runs, SomeThread, blocked-awake, joining-awake}

abbrev stream : ℕ → ℕ
stream i = i + 7

-- One thread, blocks of two bytes: three bytes are written, and the writer is closed.
abbrev s1 : Writer
s1 = record new { producer = Producer.in_write 3 }

abbrev s2 : Writer
s2 = write_round 2 1 stream 3 s1

abbrev s3 : Writer
s3 = write_round 2 1 stream 3 s2

abbrev s4 : Writer
s4 = end_write 2 1 s3

abbrev s5 : Writer
s5 = take_block 2 0 s4

abbrev s6 : Writer
s6 = feed 6 0 0 2 0 [] 2 s5

abbrev s7 : Writer
s7 = compressed 0 0 2 (keep (7 ∷ 8 ∷ [])) s6

abbrev s8 : Writer
s8 = start_write 0 0 2 (block_bytes codec (7 ∷ 8 ∷ [])) s7

abbrev s9 : Writer
s9 = write_some 0 0 2 (block_bytes codec (7 ∷ 8 ∷ [])) 10 s8

abbrev s10 : Writer
s10 = end_round 0 s9

abbrev s11 : Writer
s11 = begin_close 2 1 s10

abbrev s12 : Writer
s12 = take_block 2 0 s11

abbrev s13 : Writer
s13 = feed 6 0 2 3 2 [] 1 s12

abbrev s14 : Writer
s14 = compressed 0 2 3 (keep (9 ∷ [])) s13

abbrev s15 : Writer
s15 = start_write 0 2 3 (block_bytes codec (9 ∷ [])) s14

abbrev s16 : Writer
s16 = write_some 0 2 3 (block_bytes codec (9 ∷ [])) 9 s15

abbrev s17 : Writer
s17 = end_round 0 s16

abbrev s18 : Writer
s18 = stop 0 s17

abbrev s19 : Writer
s19 = end_close s18

pub only_zero : (i : ℕ) → i < 1 → 0 ≡ i
only_zero i small = omega arith

abbrev reach5 : Reach 2 1 codec stream s5
unfolding new write_round update_reservation poll completed_pos earlier put_amount copied end_write
    take_block can_take feed feed_amount slice compressed header_bytes u32_bytes block_bytes
    start_write write_some end_round other_thread_write_first is_before begin_close can_stop stop
    end_close update
reach5 =
    steps
      (steps
        (steps (steps (steps starts (begins_write 3 refl)) (writes 3 refl refl (omega arith)))
          (writes 3 refl refl (omega arith)))
        (ends_write 0 refl refl))
      (takes 0 (omega arith) refl refl)

abbrev reach9 : Reach 2 1 codec stream s9
unfolding new write_round update_reservation poll completed_pos earlier put_amount copied end_write
    take_block can_take feed feed_amount slice compressed header_bytes u32_bytes block_bytes
    start_write write_some end_round other_thread_write_first is_before begin_close can_stop stop
    end_close update
reach9 =
    steps
      (steps
        (steps (steps reach5 (feeds 0 0 2 0 [] 2 refl (omega arith) (omega arith)))
          (compresses 0 0 2 (7 ∷ 8 ∷ []) refl))
        (starts_writing 0 0 2 (block_bytes codec (7 ∷ 8 ∷ [])) refl refl refl))
      (writes_some 0 0 2 (block_bytes codec (7 ∷ 8 ∷ [])) 10 refl (omega arith) (omega arith))

abbrev reach11 : Reach 2 1 codec stream s11
unfolding new write_round update_reservation poll completed_pos earlier put_amount copied end_write
    take_block can_take feed feed_amount slice compressed header_bytes u32_bytes block_bytes
    start_write write_some end_round other_thread_write_first is_before begin_close can_stop stop
    end_close update
reach11 = steps (steps reach9 (ends_writing 0 0 2 refl)) (begins_close refl)

abbrev reach16 : Reach 2 1 codec stream s16
unfolding new write_round update_reservation poll completed_pos earlier put_amount copied end_write
    take_block can_take feed feed_amount slice compressed header_bytes u32_bytes block_bytes
    start_write write_some end_round other_thread_write_first is_before begin_close can_stop stop
    end_close update
reach16 =
    steps
      (steps
        (steps
          (steps (steps reach11 (takes 0 (omega arith) refl refl))
            (feeds 0 2 3 2 [] 1 refl (omega arith) (omega arith)))
          (compresses 0 2 3 (9 ∷ []) refl))
        (starts_writing 0 2 3 (block_bytes codec (9 ∷ [])) refl refl refl))
      (writes_some 0 2 3 (block_bytes codec (9 ∷ [])) 9 refl (omega arith) (omega arith))

abbrev reach19 : Reach 2 1 codec stream s19
unfolding new write_round update_reservation poll completed_pos earlier put_amount copied end_write
    take_block can_take feed feed_amount slice compressed header_bytes u32_bytes block_bytes
    start_write write_some end_round other_thread_write_first is_before begin_close can_stop stop
    end_close update
reach19 =
    steps (steps (steps reach16 (ends_writing 0 2 3 refl)) (stops 0 (omega arith) refl refl refl)) (
      ends_close refl
        (λ i small. subst (λ j. s18.threads j ≡ Phase.stopped) (only_zero i small) refl))

-- Seven bytes do not fit the buffer of six, and the producer waits.
abbrev t3 : Writer
t3 =
    write_round 2 1 stream 7
      (write_round 2 1 stream 7 (record new { producer = Producer.in_write 7 }))

abbrev t4 : Writer
t4 = write_round 2 1 stream 1 t3

abbrev reach_blocked : Reach 2 1 codec stream t4
unfolding new write_round update_reservation poll completed_pos earlier put_amount copied end_write
    take_block can_take feed feed_amount slice compressed header_bytes u32_bytes block_bytes
    start_write write_some end_round other_thread_write_first is_before begin_close can_stop stop
    end_close update
reach_blocked =
    steps
      (steps (steps (steps starts (begins_write 7 refl)) (writes 7 refl refl (omega arith)))
        (writes 7 refl refl (omega arith)))
      (writes 1 refl refl (omega arith))

one_writer_example : ◌≡◌ {A = ℕ} 0 0
unfolding new write_round update_reservation poll completed_pos earlier put_amount copied end_write
    take_block can_take feed feed_amount slice compressed header_bytes u32_bytes block_bytes
    start_write write_some end_round other_thread_write_first is_before begin_close can_stop stop
    end_close update
one_writer_example = one_writer codec stream 2 1 (omega arith) (omega arith) s9 reach9 0 0 refl refl

no_race_example : 1 % 6 ≢ 4 % 6
unfolding new write_round update_reservation poll completed_pos earlier put_amount copied end_write
    take_block can_take feed feed_amount slice compressed header_bytes u32_bytes block_bytes
    start_write write_some end_round other_thread_write_first is_before begin_close can_stop stop
    end_close update
no_race_example =
    no_race codec stream 2 1 (omega arith) (omega arith) s5 reach5 0 0 2 0 [] refl 1 (omega arith)
      (omega arith) 4 (omega arith) (omega arith)

closed-file_example :
    (s19.error ≡ false)
    × ((blocks : List (List ℕ)) × Blocks blocks
        × (s19.file ≡ file_bytes codec blocks)
        × (concat blocks ≡ slice stream 0 3))
unfolding new write_round update_reservation poll completed_pos earlier put_amount copied end_write
    take_block can_take feed feed_amount slice compressed header_bytes u32_bytes block_bytes
    start_write write_some end_round other_thread_write_first is_before begin_close can_stop stop
    end_close update
closed-file_example =
    closed-file codec stream 2 1 (omega arith) (omega arith) s19 reach19 (omega arith) refl

-- The file is read a byte at a time.
write-read_example :
    (r : CompressedReader) × (read codec 9 2
        (R.new (record { bytes = s19.file; most = λ offset. 0 }))
      ≡ some (7 ∷ 8 ∷ [], r))
unfolding new write_round update_reservation poll completed_pos earlier put_amount copied end_write
    take_block can_take feed feed_amount slice compressed header_bytes u32_bytes block_bytes
    start_write write_some end_round other_thread_write_first is_before begin_close can_stop stop
    end_close update
write-read_example =
    write-read codec stream 2 1 (omega arith) (omega arith) s19 reach19 (λ offset. 0) 9 2
      (omega arith) refl (omega arith)

-- The producer sleeps.
abbrev dozing : Sleepers
dozing = set_asleep true the_producer nobody

abbrev runs_blocked : Runs 2 1 codec stream t4 dozing
unfolding new write_round update_reservation poll completed_pos earlier put_amount copied end_write
    take_block can_take feed feed_amount slice compressed header_bytes u32_bytes block_bytes
    start_write write_some end_round other_thread_write_first is_before begin_close can_stop stop
    end_close update producer_must_wait
runs_blocked =
    sleeps the_producer (Reach-Runs codec stream 2 1 (omega arith) (omega arith) reach_blocked) refl

blocked-awake_example :
    SomeThread codec stream 2 1 (omega arith) (omega arith) t4 dozing
    ⊎ (((poll 2 1 true (Producer.blocked 1) (Producer.in_write 1) t4).producer
          ≡ Producer.in_write 1)
        × (dozing.of_producer ≡ false))
unfolding new write_round update_reservation poll completed_pos earlier put_amount copied end_write
    take_block can_take feed feed_amount slice compressed header_bytes u32_bytes block_bytes
    start_write write_some end_round other_thread_write_first is_before begin_close can_stop stop
    end_close update
blocked-awake_example =
    blocked-awake codec stream 2 1 (omega arith) (omega arith) t4 dozing runs_blocked 1
      (omega arith) refl

joining-awake_example :
    SomeThread codec stream 2 1 (omega arith) (omega arith) s11 nobody
    ⊎ ((i : ℕ) → i < 1 → s11.threads i ≡ Phase.stopped)
unfolding new write_round update_reservation poll completed_pos earlier put_amount copied end_write
    take_block can_take feed feed_amount slice compressed header_bytes u32_bytes block_bytes
    start_write write_some end_round other_thread_write_first is_before begin_close can_stop stop
    end_close update
joining-awake_example =
    joining-awake codec stream 2 1 (omega arith) (omega arith) s11 nobody
      (Reach-Runs codec stream 2 1 (omega arith) (omega arith) reach11) refl
