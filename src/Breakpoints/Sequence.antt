-- ===== src/Breakpoints/Sequence.antt =====
-- session/address_space.rs: any sequence of added and removed breakpoints, and what a reader of the
-- memory sees.
use rd.Prelude.{
  ℕ, zero, suc, ◌+◌, ◌-◌, ◌<◌, ◌^◌, ◌≡◌, Option, none, some, List, [], ◌∷◌, ltb, ◌==◌,
  if◌then◌else◌, arith, refl, ◌⊎◌, inl, inr, length, get_elem?, max, Bool-cases, Option-cases, ap,
  subst,
}
use rd.Prelude.Options.{◌>>=◌}
use rd.RemotePtr.{ptr_add}
use rd.Breakpoints.{
  Breakpoint, BreakpointType, bkpt_none, bkpt_internal, bkpt_user, BreakpointMap, get, Tracee,
  Space, add_breakpoint, remove_breakpoint, get_breakpoint_type_at_addr, replace_one,
  replace_breakpoints_with_original_values, set_byte,
}
use rd.Breakpoints.Table.{Distinct}
use rd.Breakpoints.Counts.{Count, no_count, kind_of}
use rd.Breakpoints.Represents.{Represents, after_add, after_remove}
use rd.Breakpoints.Counted.{add_breakpoint-Represents, remove_breakpoint-Represents}

-- One call from outside.
pub data Call : Type 0 where
  add : ℕ → BreakpointType → Call
  drop : ℕ → BreakpointType → Call

-- The calls in order; whether a breakpoint could be added is not looked at.
pub run : (tracee : Tracee) → List Call → Space tracee → Option (Space tracee)
run tracee [] s = some s
run tracee (add addr type ∷ calls) s = do
  result ← add_breakpoint tracee addr type s
  run tracee calls result.1
run tracee (drop addr type ∷ calls) s = do
  s' ← remove_breakpoint tracee addr type s
  run tracee calls s'

module _ (tracee : Tracee) (original : ℕ → Option ℕ) where
  -- The counts after the calls.
  abbrev pub counts_after : List Call → (ℕ → Count) → ℕ → Count
  counts_after [] c = c
  counts_after (add addr type ∷ calls) c =
      counts_after calls (after_add tracee original c addr type)
  counts_after (drop addr type ∷ calls) c = counts_after calls (after_remove tracee c addr type)

  -- No count overflows, and of a breakpoint only a kind that is set is removed.
  abbrev pub Legal : List Call → (ℕ → Count) → Type 0
  Legal [] c = Unit {0}
  Legal (add addr type ∷ calls) c =
      (kind_of type (c addr) + 1 < 2 ^ 32) × Legal calls (after_add tracee original c addr type)
  Legal (drop addr type ∷ calls) c =
      ((c addr ≡ no_count) ⊎ (0 < kind_of type (c addr)))
      × ((c addr).internal + (c addr).user < 2 ^ 32)
      × Legal calls (after_remove tracee c addr type)

  -- In a space with a task whose breakpoints stand for some counts over some memory, where no count
  -- overflows and of a breakpoint only a kind that is set is removed, any calls of add_breakpoint and
  -- remove_breakpoint return, and the breakpoints stand for the counts after the calls over the same
  -- memory: an address has a breakpoint exactly if a count of it is not 0, there the breakpoint
  -- instruction is read and the byte of the memory is kept, and elsewhere the memory itself is read.
  pub run-Represents :
      (calls : List Call) (c : ℕ → Count) (s : Space tracee)
      → Represents tracee original c s
      → Legal calls c
      → (s' : Space tracee) × (run tracee calls s ≡ some s')
        × Represents tracee original (counts_after calls c) s'
  unfolding run
  run-Represents [] c s r h = (s, refl, r)
  run-Represents (add addr type ∷ calls) c s r h =
      let (done, s1, did, r1) = add_breakpoint-Represents tracee original c s r addr type h.0 in
      let (s2, ran, r2) = run-Represents calls (after_add tracee original c addr type) s1 r1 h.1 in
      (s2, rw did ran, r2)
  run-Represents (drop addr type ∷ calls) c s r h =
      let (s1, did, r1) = remove_breakpoint-Represents tracee original c s r addr type h.0 h.1 in
      let (s2, ran, r2) = run-Represents calls (after_remove tracee c addr type) s1 r1 h.2 in
      (s2, rw did ran, r2)

abbrev pub Below : BreakpointMap → Type 0
Below [] = Unit
Below ((k, bp) ∷ bps) = (k < 2 ^ 64) × Below bps

length-set_byte : (xs : List ℕ) (j v : ℕ) → length (set_byte xs j v) ≡ length xs
length-set_byte [] j v = refl
length-set_byte (x ∷ xs) zero v = refl
length-set_byte (x ∷ xs) (suc j) v = ap suc (length-set_byte xs j v)

get_elem?-set_byte :
    (xs : List ℕ) (j v i : ℕ)
    → i < length xs
    → get_elem? (set_byte xs j v) i ≡ (if j == i then some v else get_elem? xs i)
get_elem?-set_byte [] j v i h = absurd (omega arith)
get_elem?-set_byte (x ∷ xs) zero v zero h = refl
get_elem?-set_byte (x ∷ xs) zero v (suc i) h = ground arith
get_elem?-set_byte (x ∷ xs) (suc j) v zero h = ground arith
get_elem?-set_byte (x ∷ xs) (suc j) v (suc i) h = ground (arith, get_elem?-set_byte xs j v i)

length-replace_one :
    (addr k : ℕ) (bp : Breakpoint) (dest : List ℕ)
    → length (replace_one addr k bp dest) ≡ length dest
unfolding replace_one
length-replace_one addr k bp dest =
    ground (arith, length-set_byte dest (max addr k - addr) bp.overwritten_data)

get_elem?-replace_one :
    (addr k : ℕ) (bp : Breakpoint) (dest : List ℕ) (i : ℕ)
    → addr + length dest < 2 ^ 64
    → k < 2 ^ 64
    → i < length dest
    → get_elem? (replace_one addr k bp dest) i
      ≡ (if k == addr + i then some bp.overwritten_data else get_elem? dest i)
unfolding replace_one ptr_add
get_elem?-replace_one addr k bp dest i h g l =
    ground (arith, get_elem?-set_byte dest (max addr k - addr) bp.overwritten_data i)

get_elem?-replace :
    (bps : BreakpointMap) (addr : ℕ) (dest : List ℕ) (i : ℕ)
    → Distinct bps
    → Below bps
    → addr + length dest < 2 ^ 64
    → i < length dest
    → get_elem? (replace_breakpoints_with_original_values bps addr dest) i
      ≡ elim (get (addr + i) bps) [ none ↦ get_elem? dest i | some bp ↦ some bp.overwritten_data ]
unfolding replace_breakpoints_with_original_values get
get_elem?-replace [] addr dest i d b h l = refl
get_elem?-replace ((k, bp) ∷ bps) addr dest i d b h l =
    let same = length-replace_one addr k bp dest in
    let rest =
      get_elem?-replace bps addr (replace_one addr k bp dest) i d.1 b.1 (omega (arith, same))
        (omega (arith, same)) in
    let here = get_elem?-replace_one addr k bp dest i h b.0 l in
    elim (Bool-cases (k == addr + i)) [
      | inl eq ↦
          let at : k ≡ addr + i = ground arith in
          let missing : get (addr + i) bps ≡ none = subst (λ (t : ℕ). get t bps ≡ none) at d.0 in
          ground (arith, eq, missing, rest, here)
      | inr ne ↦ ground (arith, ne, rest, here)
    ]

module _ (tracee : Tracee) (original : ℕ → Option ℕ) (c : ℕ → Count) (s : Space tracee)
    (r : Represents tracee original c s) where
  open tracee use {read}

  -- In a space whose breakpoints stand for some counts over some memory, with addresses below 2 ^ 64,
  -- bytes that were read from a region that does not wrap are, after
  -- replace_breakpoints_with_original_values, those of the memory without breakpoints.
  pub replace-Represents :
      (addr : ℕ) (dest : List ℕ)
      → Below s.breakpoints
      → addr + length dest < 2 ^ 64
      → ((i : ℕ) → i < length dest → get_elem? dest i ≡ read s.memory (addr + i))
      → (i : ℕ) → i < length dest
      → get_elem? (replace_breakpoints_with_original_values s.breakpoints addr dest) i
        ≡ original (addr + i)
  replace-Represents addr dest below bound was_read i l =
      let replaced = get_elem?-replace s.breakpoints addr dest i r.distinct below bound l in
      elim (Option-cases (get (addr + i) s.breakpoints)) [
        | inl missing ↦ ground (arith, replaced, missing, was_read i, r.absent (addr + i) missing)
        | inr (bp, found) ↦ ground (arith, replaced, found, r.present (addr + i) bp found)
      ]

  -- get_breakpoint_type_at_addr is the user's kind if a user breakpoint is set, else the internal kind if
  -- one is set, else none.
  pub type-Represents :
      (addr : ℕ)
      → get_breakpoint_type_at_addr tracee addr s ≡ (
          if ltb 0 (c addr).user
          then bkpt_user
          else if ltb 0 (c addr).internal
          then bkpt_internal
          else bkpt_none)
  unfolding get_breakpoint_type_at_addr
  type-Represents addr = elim (Option-cases (get addr s.breakpoints)) [
    | inl missing ↦ ground (arith, missing, r.absent addr missing)
    | inr (bp, found) ↦ ground (arith, found, r.present addr bp found)
  ]
