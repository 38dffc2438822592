-- ===== src/Compressed/Writer/Runs.antt =====
-- trace/compressed_writer.rs: the threads' steps keep the invariant.
use rd.Prelude.{
  ℕ, ◌+◌, ◌-◌, ◌^◌, ◌≤◌, ◌<◌, min, ◌==◌, ◌||◌, true, false, none, some, List, [], ◌∷◌, ◌++◌, length,
  ◌≡◌, refl, sym, ap, subst, ◌∙◌, arith, inl, inr, drop,
}
use rd.Compressed.File.{Brotli, header_bytes}
use rd.Compressed.Blocks.{concat}
use rd.Compressed.Writer.State.{Writer, Phase, update, other_thread_write_first}
use rd.Compressed.Writer.Produce.{buffer_len}
use rd.Compressed.Writer.Compress.{
  can_take, take_block, can_stop, stop, feed_amount, feed, compressed, start_write, write_some,
  end_round,
}
use rd.Compressed.Writer.Order.{none_first-next}
use rd.Compressed.Writer.Invariant.{span, is_writing, part, Content, Front, Threads}
use rd.Compressed.Writer.Working.{Threads-same, Threads-take, Threads-finish}
use rd.Compressed.Writer.Filing.{Written-same, Written-start, Written-some, Written-finish}
use rd.Compressed.Writer.Room.{Ring-advance, Content-feed, Content-compressed}
use rd.Compressed.Writer.Closing.{is_stopped, Ends-phase, Ends-stop}
use rd.Compressed.Writer.Kept.{Holds}

module _ (b : Brotli) (stream : ℕ → ℕ) (block_size num_threads : ℕ)
    (block_fits : block_size < 2 ^ 31) (block_some : 0 < block_size) where
  module _ (w : Writer) (r : Holds b stream block_size num_threads w) where
    abbrev at : ℕ
    at = length (concat r.blocks)

    -- The block of a thread that has one.
    bounds :
        (i a c : ℕ)
        → span (w.threads i) ≡ some (a, c)
        → (i < num_threads) × (at ≤ a) × (a < c) × (c ≤ w.next_thread_pos) × (c ≤ a + block_size)
    bounds i a c e =
        let x = r.working.spans.bounds i a c e in
        (r.working.spans.known i a c e, x.0, x.1, x.2, x.3)

    -- A thread goes on with its block, and does not write.
    pub Inv-same :
        (i : ℕ) (p : Phase)
        → i < num_threads
        → span p ≡ span (w.threads i)
        → Content b stream p
        → is_writing p ≡ false
        → is_writing (w.threads i) ≡ false
        → is_stopped p ≡ false
        → is_stopped (w.threads i) ≡ false
        → Holds b stream block_size num_threads (record w { threads = update i p w.threads })
    Inv-same i p small e c quiet was_quiet runs ran = record {
      blocks = r.blocks;
      working = Threads-same b stream block_size num_threads _ _ _ _ r.working i p e c;
      written =
          Written-same b stream block_size num_threads _ _ _ _ _ r.working r.written i p quiet
            was_quiet;
      ring = r.ring;
      ends =
          Ends-phase b stream block_size num_threads _ _ _ _ _ _ _ _ r.ends i _ p small ran runs
            (inl refl);
    }

    pub Inv-take_block :
        (i : ℕ)
        → i < num_threads
        → w.threads i ≡ Phase.idle
        → can_take block_size w ≡ true
        → Holds b stream block_size num_threads (take_block block_size i w)
    unfolding can_take take_block
    Inv-take_block i small e can =
        let more : w.next_thread_pos < w.next_thread_end_pos = ground (arith, can) in
        let end_pos = min w.next_thread_end_pos (w.next_thread_pos + block_size) in
        let p = Phase.compressing w.next_thread_pos end_pos w.next_thread_pos [] in
        record {
          blocks = r.blocks;
          working =
              Threads-take b stream block_size num_threads _ _ _ _ r.working i end_pos small
                (ap span e) (omega arith) (omega arith);
          written =
              Written-same b stream block_size num_threads _ _ _ _ _ r.working r.written i p refl
                (ap is_writing e);
          ring =
              Ring-advance b stream block_size num_threads _ _ _ _ _ _ _ _ _ r.ring (omega arith)
                (omega arith);
          ends =
              Ends-phase b stream block_size num_threads _ _ _ _ _ _ _ _ r.ends i _ p small
                (ap is_stopped e) refl (inr more);
        }

    pub Inv-stop :
        (i : ℕ)
        → i < num_threads
        → w.threads i ≡ Phase.idle
        → can_stop w ≡ true
        → Holds b stream block_size num_threads (stop i w)
    unfolding can_stop stop Content
    Inv-stop i small e can = record {
      blocks = r.blocks;
      working =
          Threads-same b stream block_size num_threads _ _ _ _ r.working i Phase.stopped
            (sym (ap span e)) tt;
      written =
          Written-same b stream block_size num_threads _ _ _ _ _ r.working r.written i Phase.stopped
            refl (ap is_writing e);
      ring = r.ring;
      ends =
          Ends-stop b stream block_size num_threads _ _ _ _ _ _ _ _ r.ends i (ground (arith, can))
            (ground (arith, can, r.ends.no_write_error));
    }

    pub Inv-feed :
        (i start stop offset : ℕ) (fed : List ℕ) (consumed : ℕ)
        → w.threads i ≡ Phase.compressing start stop offset fed
        → consumed ≤ feed_amount (buffer_len block_size num_threads) offset stop
        → Holds b stream block_size num_threads
            (feed (buffer_len block_size num_threads) i start stop offset fed consumed w)
    unfolding feed
    Inv-feed i start stop offset fed consumed e fits =
        let x = bounds i start stop (ap span e) in
        let c = subst (Content b stream) e (r.working.content i) in
        Inv-same i _ x.0 (sym (ap span e))
          (Content-feed b stream block_size num_threads _ _ _ _ _ _ _ start stop offset consumed fed
            r.ring c x.1 x.3 fits)
          refl (ap is_writing e) refl (ap is_stopped e)

    pub Inv-compressed :
        (i start stop : ℕ) (fed : List ℕ)
        → w.threads i ≡ Phase.compressing start stop stop fed
        → Holds b stream block_size num_threads (compressed i start stop (b.compress fed) w)
    unfolding compressed
    Inv-compressed i start stop fed e =
        let x = bounds i start stop (ap span e) in
        let c = subst (Content b stream) e (r.working.content i) in
        let fine : (w.write_error || (length (b.compress fed) == 0)) ≡ w.write_error =
          ground (arith, r.ends.no_write_error, b.compress_nonempty fed) in
        subst
          (λ v. Holds b stream block_size num_threads (record w {
            write_error = v;
            threads =
                update i
                  (Phase.waiting start stop (
                    header_bytes (record {
                      compressed_length = length (b.compress fed);
                      uncompressed_length = stop - start;
                    })
                    ++ b.compress fed))
                  w.threads;
          }))
          (sym fine)
          (Inv-same i _ x.0 (sym (ap span e))
            (Content-compressed b stream block_size num_threads start stop fed c) refl
            (ap is_writing e) refl (ap is_stopped e))

    pub Inv-start_write :
        (i start stop : ℕ) (out : List ℕ)
        → w.threads i ≡ Phase.waiting start stop out
        → other_thread_write_first num_threads w start ≡ false
        → Holds b stream block_size num_threads (start_write i start stop out w)
    unfolding start_write Content
    Inv-start_write i start stop out e first =
        let x = bounds i start stop (ap span e) in
        let next : start ≡ at =
          none_first-next block_size num_threads w at (λ j. span (w.threads j)) r.working.spans
            r.working.positions i start stop (ap span e) first in
        let here : w.threads i ≡ Phase.waiting at stop out =
          e ∙ ap (λ s. Phase.waiting s stop out) next in
        let p = Phase.writing at stop out in
        subst (λ s. Holds b stream block_size num_threads (start_write i s stop out w)) (sym next)
          (record {
            blocks = r.blocks;
            working =
                Threads-same b stream block_size num_threads _ _ _ _ r.working i p
                  (sym (ap span here)) tt;
            written =
                Written-start b stream block_size num_threads _ _ _ _ _ r.working r.written i stop
                  out here;
            ring = r.ring;
            ends =
                Ends-phase b stream block_size num_threads _ _ _ _ _ _ _ _ r.ends i _ p x.0
                  (ap is_stopped e) refl (inl refl);
          })

    pub Inv-write_some :
        (i start stop : ℕ) (out : List ℕ) (k : ℕ)
        → w.threads i ≡ Phase.writing start stop out
        → Holds b stream block_size num_threads (write_some i start stop out k w)
    unfolding write_some Content
    Inv-write_some i start stop out k e =
        let x = bounds i start stop (ap span e) in
        let p = Phase.writing start stop (drop k out) in
        record {
          blocks = r.blocks;
          working =
              Threads-same b stream block_size num_threads _ _ _ _ r.working i p (sym (ap span e))
                tt;
          written =
              Written-some b stream block_size num_threads _ _ _ _ _ r.working r.written i start
                stop out k e;
          ring = r.ring;
          ends =
              Ends-phase b stream block_size num_threads _ _ _ _ _ _ _ _ r.ends i _ p x.0
                (ap is_stopped e) refl (inl refl);
        }

    pub Inv-end_round :
        (i start stop : ℕ)
        → w.threads i ≡ Phase.writing start stop []
        → Holds b stream block_size num_threads (end_round i w)
    unfolding end_round
    Inv-end_round i start stop e =
        let x = bounds i start stop (ap span e) in
        let (next, _) = subst (Front b stream w.file r.blocks) e (r.written.front i) in
        let here : span (w.threads i) ≡ some (at, stop) =
          ap span e ∙ ap (λ s. some (s, stop)) next in
        let blocks' = r.blocks ++ part b stream start stop ∷ [] in
        let (total, written') =
          Written-finish b stream block_size num_threads _ _ _ _ _ r.working r.written i start stop
            e (omega (arith, x.4)) in
        record {
          blocks = blocks';
          working =
              subst
                (λ d.
                  Threads b stream block_size num_threads (update i none w.thread_pos)
                    (update i Phase.idle w.threads) d w.next_thread_pos)
                (sym total)
                (Threads-finish b stream block_size num_threads _ _ _ _ r.working i stop here);
          written = written';
          ring =
              Ring-advance b stream block_size num_threads _ _ _ _ _ _ _ _ _ r.ring
                (omega (arith, total, x.1, x.2)) r.ring.dispatched;
          ends =
              Ends-phase b stream block_size num_threads _ _ _ _ _ _ _ _ r.ends i _ Phase.idle x.0
                (ap is_stopped e) refl (inl refl);
        }
