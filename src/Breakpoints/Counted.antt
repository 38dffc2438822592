-- ===== src/Breakpoints/Counted.antt =====
-- session/address_space.rs: `add_breakpoint` and `remove_breakpoint` change the counts of one
-- address.
use rd.Prelude.{
  ℕ, ◌+◌, ◌<◌, ◌^◌, ◌≡◌, Bool, true, false, Option, none, some, ◌==◌, arith, refl, ◌⊎◌, inl, inr,
  Option-cases, Bool-cases, subst, ap, sym, ◌∙◌,
}
use rd.Breakpoints.{
  Breakpoint, BreakpointType, get, insert, remove, Tracee, Space, add_breakpoint, remove_breakpoint,
  destroy_breakpoint_at, new_breakpoint, breakpoint_insn,
}
use rd.Breakpoints.Table.{get-insert, remove-insert}
use rd.Breakpoints.Counts.{
  Count, no_count, count_of, kind_of, more, fewer, fewer_none, do_ref_lem, do_unref_lem, small,
}
use rd.Breakpoints.Represents.{Represents, after_add, after_remove, written, taken}

module _ (tracee : Tracee) where
  open tracee use {read, write_total, read-write}

  module _ (original : ℕ → Option ℕ) (c : ℕ → Count) (s : Space tracee)
      (r : Represents tracee original c s) (addr : ℕ) where
    module _ (type : BreakpointType) where
      add_there :
          (bp : Breakpoint)
          → get addr s.breakpoints ≡ some bp
          → kind_of type (c addr) + 1 < 2 ^ 32
          → (s' : Space tracee) × (add_breakpoint tracee addr type s ≡ some (true, s'))
            × Represents tracee original (after_add tracee original c addr type) s'
      unfolding add_breakpoint
      add_there bp found h =
          let (counted, positive, data_there, trap) = r.present addr bp found in
          let fits : kind_of type (count_of bp) + 1 < 2 ^ 32 =
            subst (λ (x : Count). kind_of type x + 1 < 2 ^ 32) counted h in
          let (bp', did, count', data', positive') = do_ref_lem type bp fits in
          let same : more type (c addr) ≡ count_of bp' = ap (more type) counted ∙ sym count' in
          (
            record s { breakpoints = insert addr bp' s.breakpoints },
            ground (arith, found, did),
            written tracee original c s r addr bp' s.memory (after_add tracee original c addr type)
                positive' (data_there ∙ ap (λ (t : ℕ). some t) (sym data')) trap (λ a away. refl)
                (ground (arith, same, data_there)) (λ a away. ground arith),
          )

      add_away :
          (old : ℕ)
          → get addr s.breakpoints ≡ none
          → read s.memory addr ≡ some old
          → (s' : Space tracee) × (add_breakpoint tracee addr type s ≡ some (true, s'))
            × Represents tracee original (after_add tracee original c addr type) s'
      unfolding add_breakpoint new_breakpoint
      add_away old missing readable =
          let (uncounted, plain) = r.absent addr missing in
          let (memory, wrote) = write_total s.memory addr breakpoint_insn readable in
          let fits : kind_of type (count_of (new_breakpoint old)) + 1 < 2 ^ 32 = small type old in
          let (bp', did, count', data', positive') = do_ref_lem type (new_breakpoint old) fits in
          let same : more type (c addr) ≡ count_of bp' = ap (more type) uncounted ∙ sym count' in
          let data_there : original addr ≡ some bp'.overwritten_data =
            sym plain ∙ readable ∙ ap (λ (t : ℕ). some t) (sym data') in
          (
            record s { memory = memory; breakpoints = insert addr bp' s.breakpoints },
            ground (arith, missing, readable, r.has_task, wrote, did),
            written tracee original c s r addr bp' memory (after_add tracee original c addr type)
                positive' data_there
                (ground (arith, read-write s.memory memory addr breakpoint_insn addr wrote))
                (λ a away. ground (arith, read-write s.memory memory addr breakpoint_insn a wrote))
                (ground (arith, same, data_there)) (λ a away. ground arith),
          )

      -- The byte cannot be read: nothing changes.
      add_unreadable :
          get addr s.breakpoints ≡ none
          → read s.memory addr ≡ none
          → (add_breakpoint tracee addr type s ≡ some (false, s))
            × Represents tracee original (after_add tracee original c addr type) s
      unfolding add_breakpoint
      add_unreadable missing unreadable =
          let (uncounted, plain) = r.absent addr missing in
          let hidden : original addr ≡ none = sym plain ∙ unreadable in
          let same : (a : ℕ) → after_add tracee original c addr type a ≡ c a =
            λ a. ground (arith, hidden) in
          (
            ground (arith, missing, unreadable, r.has_task),
            record {
              has_task = r.has_task;
              distinct = r.distinct;
              absent = λ a e. (same a ∙ (r.absent a e).0, (r.absent a e).1);
              present = λ a bp e. (
                same a ∙ (r.present a bp e).0,
                (r.present a bp e).1,
                (r.present a bp e).2,
                (r.present a bp e).3,
              );
            },
          )

      pub add_breakpoint-Represents :
          kind_of type (c addr) + 1 < 2 ^ 32
          → (done : Bool) × (s' : Space tracee) × (add_breakpoint tracee addr type s
              ≡ some (done, s'))
            × Represents tracee original (after_add tracee original c addr type) s'
      add_breakpoint-Represents h = elim (Option-cases (get addr s.breakpoints)) [
        | inr (bp, found) ↦ (let (s', did, r') = add_there bp found h in (true, s', did, r'))
        | inl missing ↦ elim (Option-cases (read s.memory addr)) [
          | inl unreadable ↦
              (let (did, r') = add_unreadable missing unreadable in (false, s, did, r'))
          | inr (old, readable) ↦
              (let (s', did, r') = add_away old missing readable in (true, s', did, r'))
        ]
      ]

      remove_absent :
          get addr s.breakpoints ≡ none
          → (remove_breakpoint tracee addr type s ≡ some s)
            × Represents tracee original (after_remove tracee c addr type) s
      unfolding remove_breakpoint
      remove_absent missing =
          let (uncounted, plain) = r.absent addr missing in
          let same : (a : ℕ) → after_remove tracee c addr type a ≡ c a = λ a.
            elim (Bool-cases (addr == a)) [
              | inl here ↦ rw here (
                  let at : addr ≡ a = ground arith in
                  subst (λ (a : ℕ). fewer type (c a) ≡ c a) at (rw uncounted (fewer_none type)))
              | inr away ↦ rw away refl
            ] in
          (
            ground (arith, missing),
            record {
              has_task = r.has_task;
              distinct = r.distinct;
              absent = λ a e. (same a ∙ (r.absent a e).0, (r.absent a e).1);
              present = λ a bp e. (
                same a ∙ (r.present a bp e).0,
                (r.present a bp e).1,
                (r.present a bp e).2,
                (r.present a bp e).3,
              );
            },
          )

      remove_there :
          (bp : Breakpoint)
          → get addr s.breakpoints ≡ some bp
          → 0 < kind_of type (c addr)
          → (c addr).internal + (c addr).user < 2 ^ 32
          → (s' : Space tracee) × (remove_breakpoint tracee addr type s ≡ some s')
            × Represents tracee original (after_remove tracee c addr type) s'
      unfolding remove_breakpoint destroy_breakpoint_at
      remove_there bp found h l =
          let (counted, positive, data_there, trap) = r.present addr bp found in
          let some_left : 0 < kind_of type (count_of bp) =
            subst (λ (x : Count). 0 < kind_of type x) counted h in
          let fits : bp.internal_count + bp.user_count < 2 ^ 32 =
            subst (λ (x : Count). x.internal + x.user < 2 ^ 32) counted l in
          let (bp', did, count', data') = do_unref_lem type bp some_left fits in
          let same : fewer type (c addr) ≡ count_of bp' = ap (fewer type) counted ∙ sym count' in
          let data_left : original addr ≡ some bp'.overwritten_data =
            data_there ∙ ap (λ (t : ℕ). some t) (sym data') in
          elim (Bool-cases (bp'.internal_count + bp'.user_count == 0)) [
            | inr stays ↦ (
              record s { breakpoints = insert addr bp' s.breakpoints },
              ground (arith, found, did, stays),
              written tracee original c s r addr bp' s.memory (after_remove tracee c addr type)
                  (ground arith) data_left trap (λ a away. refl) (ground (arith, same))
                  (λ a away. ground arith),
            )
            | inl last ↦
                let (memory, wrote) = write_total s.memory addr bp'.overwritten_data trap in
                let nothing : count_of bp' ≡ no_count = ground arith in
                (
                  record s { memory = memory; breakpoints = remove addr s.breakpoints },
                  ground (
                    arith,
                    found,
                    did,
                    last,
                    r.has_task,
                    wrote,
                    get-insert addr addr bp' s.breakpoints,
                    remove-insert addr bp bp' s.breakpoints,
                  ),
                  taken tracee original c s r addr bp' memory (after_remove tracee c addr type)
                      data_left wrote (ground (arith, same, nothing)) (λ a away. ground arith),
                )
          ]

      pub remove_breakpoint-Represents :
          (c addr ≡ no_count) ⊎ (0 < kind_of type (c addr))
          → (c addr).internal + (c addr).user < 2 ^ 32
          → (s' : Space tracee) × (remove_breakpoint tracee addr type s ≡ some s')
            × Represents tracee original (after_remove tracee c addr type) s'
      remove_breakpoint-Represents h l = elim (Option-cases (get addr s.breakpoints)) [
        | inl missing ↦ (let (did, r') = remove_absent missing in (s, did, r'))
        | inr (bp, found) ↦
            remove_there bp found
              (elim h [
                | inr positive ↦ positive
                | inl nothing ↦ absurd (ground (arith, r.present addr bp found))
              ])
              l
      ]
