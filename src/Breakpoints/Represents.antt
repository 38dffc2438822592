-- ===== src/Breakpoints/Represents.antt =====
-- session/address_space.rs: the breakpoints as counts for each address, over a memory that the
-- program behind them never sees changed.
use rd.Prelude.{
  ℕ, ◌+◌, ◌<◌, ◌≡◌, true, false, Option, none, some, ◌==◌, if◌then◌else◌, arith, inl, inr,
  Bool-cases, subst,
}
use rd.Breakpoints.{Breakpoint, BreakpointType, get, insert, remove, Tracee, Space, breakpoint_insn}
use rd.Breakpoints.Table.{Distinct, get-insert, get-remove, insert-Distinct, remove-Distinct}
use rd.Breakpoints.Counts.{Count, no_count, count_of, more, fewer}

module _ (tracee : Tracee) where
  open tracee use {Memory, read, write, write_total, read-write}

  -- The space has the counts `c`, and without its breakpoints the memory reads as `original`.
  pub record Represents (original : ℕ → Option ℕ) (c : ℕ → Count) (s : Space tracee) : Type 0 where
    pub has_task : s.has_task ≡ true
    pub distinct : Distinct s.breakpoints
    pub absent :
        (a : ℕ) → get a s.breakpoints ≡ none → (c a ≡ no_count) × (read s.memory a ≡ original a)
    pub present :
        (a : ℕ) (bp : Breakpoint)
        → get a s.breakpoints ≡ some bp
        → (c a ≡ count_of bp)
          × (0 < bp.internal_count + bp.user_count)
          × (original a ≡ some bp.overwritten_data)
          × (read s.memory a ≡ some breakpoint_insn)

  -- The counts after a breakpoint is added, where the byte can be read.
  abbrev pub after_add : (ℕ → Option ℕ) → (ℕ → Count) → ℕ → BreakpointType → ℕ → Count
  after_add original c addr type a =
      if addr == a then elim (original addr) [ none ↦ c a | some _ ↦ more type (c a) ] else c a

  abbrev pub after_remove : (ℕ → Count) → ℕ → BreakpointType → ℕ → Count
  after_remove c addr type a = if addr == a then fewer type (c a) else c a

  module _ (original : ℕ → Option ℕ) (c : ℕ → Count) (s : Space tracee)
      (r : Represents original c s) (addr : ℕ) where
    -- One breakpoint written, with a memory in which it stands.
    pub written :
        (bp' : Breakpoint) (memory : Memory) (c' : ℕ → Count)
        → 0 < bp'.internal_count + bp'.user_count
        → original addr ≡ some bp'.overwritten_data
        → read memory addr ≡ some breakpoint_insn
        → ((a : ℕ) → (addr == a) ≡ false → read memory a ≡ read s.memory a)
        → c' addr ≡ count_of bp'
        → ((a : ℕ) → (addr == a) ≡ false → c' a ≡ c a)
        → Represents original c'
            (record s { memory = memory; breakpoints = insert addr bp' s.breakpoints })
    written bp' memory c' positive data_there trap others counted rest = record {
      has_task = r.has_task;
      distinct = insert-Distinct addr bp' s.breakpoints r.distinct;
      absent = λ a e. elim (Bool-cases (addr == a)) [
        | inl here ↦ absurd (ground (arith, get-insert addr a bp' s.breakpoints))
        | inr away ↦
            ground
              (arith, get-insert addr a bp' s.breakpoints, r.absent a, others a away, rest a away)
      ];
      present = λ a x e. elim (Bool-cases (addr == a)) [
        | inl here ↦
            let at : addr ≡ a = ground arith in
            let is : bp' ≡ x = ground (arith, get-insert addr a bp' s.breakpoints) in
            subst
              (λ (x : Breakpoint).
                (c' a ≡ count_of x)
                × (0 < x.internal_count + x.user_count)
                × (original a ≡ some x.overwritten_data)
                × (read memory a ≡ some breakpoint_insn))
              is
              (subst
                (λ (a : ℕ).
                  (c' a ≡ count_of bp')
                  × (0 < bp'.internal_count + bp'.user_count)
                  × (original a ≡ some bp'.overwritten_data)
                  × (read memory a ≡ some breakpoint_insn))
                at (counted, positive, data_there, trap))
        | inr away ↦
            ground (
              arith,
              get-insert addr a bp' s.breakpoints,
              r.present a x,
              others a away,
              rest a away,
            )
      ];
    }

    -- The breakpoint taken out, and its byte written back.
    pub taken :
        (bp : Breakpoint) (memory : Memory) (c' : ℕ → Count)
        → original addr ≡ some bp.overwritten_data
        → write s.memory addr bp.overwritten_data ≡ some memory
        → c' addr ≡ no_count
        → ((a : ℕ) → (addr == a) ≡ false → c' a ≡ c a)
        → Represents original c'
            (record s { memory = memory; breakpoints = remove addr s.breakpoints })
    taken bp memory c' data_there wrote counted rest = record {
      has_task = r.has_task;
      distinct = remove-Distinct addr s.breakpoints r.distinct;
      absent = λ a e. elim (Bool-cases (addr == a)) [
        | inl here ↦
            let at : addr ≡ a = ground arith in
            (
              subst (λ (a : ℕ). c' a ≡ no_count) at counted,
              ground (arith, read-write s.memory memory addr bp.overwritten_data a wrote),
            )
        | inr away ↦ ground (
          arith,
          get-remove addr a s.breakpoints r.distinct,
          r.absent a,
          read-write s.memory memory addr bp.overwritten_data a wrote,
          rest a away,
        )
      ];
      present = λ a x e. elim (Bool-cases (addr == a)) [
        | inl here ↦ absurd (ground (arith, get-remove addr a s.breakpoints r.distinct))
        | inr away ↦ ground (
          arith,
          get-remove addr a s.breakpoints r.distinct,
          r.present a x,
          read-write s.memory memory addr bp.overwritten_data a wrote,
          rest a away,
        )
      ];
    }
