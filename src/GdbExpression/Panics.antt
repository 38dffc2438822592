-- ===== src/GdbExpression/Panics.antt =====
-- gdb_expression.rs: when a step panics.
use rd.Prelude.{
  ℕ, zero, suc, ◌+◌, ◌-◌, Bool-cases, Option-cases, ◌*◌, ◌^◌, ◌%◌, ◌≤◌, ◌≡◌, ◌≢◌, ◌↔◌, ◌⊎◌, subst,
  inl, inr, refl, sym, ap, ◌∙◌, Bool, true, false, Option, none, some, List, [], ◌∷◌, arith, bit_or,
  length, ltb→lt, get_elem?, get_elem?-some, get_elem?-lt, ltb, leb, ◌==◌, if◌then◌else◌,
}
use rd.Prelude.Bits.{holds_below, holds_below_lem}
use rd.GdbExpression.Word.{min_i64, minus_one, rem_signed, low_mask, sign_extend, zero_extend}
use rd.GdbExpression.State.{
  Task, State, RegisterData, value_generic, value1, value2, value4, value8, ◌>>=◌, set_error, fetch,
  fetch_bytes, pop_a, nonzero, fetch_u8, fetch_u16, fetch_u32, fetch_u64,
}
use rd.GdbExpression.Step.{
  Opcode, decode, opcode_table, execute, execute_byte, step, op_rem_signed, decode-op_code,
  op_const16, op_const32, op_const64, op_reg, op_goto, op_if_goto, op_ext, ext_by, op_const8,
  op_pick, op_zero_ext, extend_by, extend_top, op_code, dispatch,
}

-- A register's value has the case that goes with its size.
abbrev pub Fits : ℕ → RegisterData → Type 0
Fits size (value1 _) = size ≡ 1
Fits size (value2 _) = size ≡ 2
Fits size (value4 _) = size ≡ 4
Fits size (value8 _) = size ≡ 8
Fits size (value_generic _) = (size ≢ 1) × (size ≢ 2) × (size ≢ 4) × (size ≢ 8)

fetch_bytes_total :
    (bits n pc v : ℕ) (bytecode : List ℕ)
    → pc + n ≤ length bytecode
    → (r : ℕ) × (fetch_bytes bits n pc v bytecode ≡ some r)
unfolding fetch_bytes
fetch_bytes_total bits zero pc v bytecode h = (v, refl)
fetch_bytes_total bits (suc n) pc v bytecode h =
    let (b, e) = get_elem?-some bytecode pc (omega arith) in
    let (r, e') =
      fetch_bytes_total bits n (pc + 1) (bit_or (v * 2 ^ 8 % 2 ^ bits) b) bytecode (omega arith) in
    (r, ground arith)

-- Each fetch returns: no index is out of range.
fetch_u8_total : (s : State) → (v : ℕ) × (s' : State) × (fetch_u8 s ≡ some (v, s'))
unfolding fetch_u8
fetch_u8_total s = elim (Bool-cases (ltb (length s.bytecode) (s.pc + 1))) [
  | inl e ↦ (255, record s { error = true }, ground arith)
  | inr e ↦
      let (b, found) = get_elem?-some s.bytecode s.pc (ground arith) in
      (b, record s { pc = s.pc + 1 }, ground arith)
]

fetch_total : (n : ℕ) (s : State) → (v : ℕ) × (s' : State) × (fetch n s ≡ some (v, s'))
fetch_total n s = elim (Bool-cases (ltb (length s.bytecode) (s.pc + n))) [
  | inl e ↦ (2 ^ (8 * n) - 1, record s { error = true }, rw e)
  | inr e ↦
      let (v, found) = fetch_bytes_total (8 * n) n s.pc 0 s.bytecode (ground arith) in
      (v, record s { pc = s.pc + n }, rw (e, found))
]

-- `(1i64 << n) - 1` overflows for 63 alone.
sign_extend-none : (a n : ℕ) → sign_extend a n ≡ none → 63 ≤ n
unfolding sign_extend low_mask
sign_extend-none a n h = ground arith

zero_extend-none : (a n : ℕ) → zero_extend a n ≡ none → 63 ≤ n
unfolding zero_extend low_mask
zero_extend-none a n h = ground arith

extend_top-none :
    (f : ℕ → ℕ → Option ℕ) (n : ℕ) (stack : List ℕ) (s : State)
    → s.stack ≡ stack
    → extend_top f n s ≡ none
    → (a : ℕ) × (f a n ≡ none)
unfolding extend_top pop_a
extend_top-none f n [] s e h = elim (Option-cases (f minus_one n)) [
  | inl fails ↦ (minus_one, fails)
  | inr (r, ran) ↦ absurd (ground (arith, e, ran, h))
]
extend_top-none f n (a ∷ rest) s e h = elim (Option-cases (f a n)) [
  | inl fails ↦ (a, fails)
  | inr (r, ran) ↦ absurd (ground (arith, e, ran, h))
]

extend_by-none :
    (f : ℕ → ℕ → Option ℕ) (n : ℕ) (s : State)
    → ((a : ℕ) → f a n ≡ none → 63 ≤ n)
    → extend_by f n s ≡ none
    → n ≡ 63
unfolding extend_by extend_top pop_a
extend_by-none f n s h e = elim (Bool-cases (leb 64 n)) [
  | inl large ↦ absurd (ground (arith, large))
  | inr small ↦
      let (a, fails) = extend_top-none f n s.stack s refl (rw (small, extend_by) at e) in
      ground (arith, h a)
]

ext_by-none : (x : ℕ) (s : State) → ext_by x s ≡ none → x ≡ 63
unfolding ext_by nonzero
ext_by-none zero s h = absurd (
    omega (
      arith,
      extend_by-none sign_extend 1 (record s { error = true }) (λ a. sign_extend-none a 1) h,
    ))
ext_by-none (suc x) s h = extend_by-none sign_extend (suc x) s (λ a. sign_extend-none a (suc x)) h

fetch_u8-63 : (s s' : State) → fetch_u8 s ≡ some (63, s') → get_elem? s.bytecode s.pc ≡ some 63
unfolding fetch_u8
fetch_u8-63 s s' e = ground arith

-- When the branch of an instruction panics: OP_rem_signed on i64::MIN and -1, and the extensions
-- where the next byte is 63.
abbrev pub Faults : Opcode → State → Type 0
Faults op_rem_signed s = (rest : List ℕ) × (s.stack ≡ minus_one ∷ min_i64 ∷ rest)
Faults op_ext s = get_elem? s.bytecode s.pc ≡ some 63
Faults op_zero_ext s = get_elem? s.bytecode s.pc ≡ some 63
Faults _ s = ⊥

rem_signed-none : (a b : ℕ) → rem_signed a b ≡ none → (a ≡ min_i64) × (b ≡ minus_one)
unfolding rem_signed
rem_signed-none a b h = ground arith

-- The operands, by what the stack holds; the ones that an empty stack gives are -1.
rem_operands :
    (t : Task) (stack : List ℕ) (s : State)
    → s.stack ≡ stack
    → execute t op_rem_signed s ≡ none
    → (rest : List ℕ) × (stack ≡ minus_one ∷ min_i64 ∷ rest)
unfolding execute
rem_operands t [] s e h = absurd (ground (arith, rem_signed-none minus_one minus_one))
rem_operands t (zero ∷ []) s e h = absurd (ground (arith, rem_signed-none minus_one 1))
rem_operands t (suc b ∷ []) s e h = absurd (ground (arith, rem_signed-none minus_one (suc b)))
rem_operands t (zero ∷ a ∷ rest) s e h = absurd (ground (arith, rem_signed-none a 1))
rem_operands t (suc b ∷ a ∷ rest) s e h = (rest, ground (arith, rem_signed-none a (suc b)))

execute-none :
    (t : Task) (op : Opcode) (s : State)
    → ((r : ℕ) → Fits (t.get_reg r).size (t.get_reg r).value)
    → execute t op s ≡ none
    → Faults op s
unfolding execute fetch_u16 fetch_u32 fetch_u64
execute-none t op_rem_signed s fits = rem_operands t s.stack s refl
execute-none t op_const8 s fits = let (v, s', e) = fetch_u8_total s in rw (e, ◌>>=◌) (λ p. cc)
execute-none t op_const16 s fits = let (v, s', e) = fetch_total 2 s in rw (e, ◌>>=◌) (λ p. cc)
execute-none t op_const32 s fits = let (v, s', e) = fetch_total 4 s in rw (e, ◌>>=◌) (λ p. cc)
execute-none t op_const64 s fits = let (v, s', e) = fetch_total 8 s in rw (e, ◌>>=◌) (λ p. cc)
execute-none t op_goto s fits = let (v, s', e) = fetch_total 2 s in rw (e, ◌>>=◌) (λ p. cc)
execute-none t op_if_goto s fits = let (v, s', e) = fetch_total 2 s in rw (e, ◌>>=◌) (ground arith)
execute-none t op_pick s fits = let (v, s', e) = fetch_u8_total s in rw (e, ◌>>=◌) (ground arith)
execute-none t op_ext s fits =
    let (v, s', e) = fetch_u8_total s in
    rw (e, ◌>>=◌) (λ h. fetch_u8-63 s s' (e ∙ ap (λ (x : ℕ). some (x, s')) (ext_by-none v s' h)))
execute-none t op_zero_ext s fits =
    let (v, s', e) = fetch_u8_total s in
    rw (e, ◌>>=◌)
      (λ h. fetch_u8-63 s s' (
        e
        ∙ ap (λ (x : ℕ). some (x, s'))
            (extend_by-none zero_extend v s' (λ a. zero_extend-none a v) h)))
execute-none t op_reg s fits =
    let (v, s', e) = fetch_total 2 s in rw (e, ◌>>=◌) (ground (arith, fits v))
execute-none t _ s fits = ground arith

code_table :
    holds_below 0x35 (λ b. elim (decode b) [ none ↦ true | some op ↦ op_code op == b ]) ≡ true
unfolding holds_below decode op_code
code_table = refl

get_elem?-none {ℓ} : {A : Type ℓ} (xs : List A) (i : ℕ) → length xs ≤ i → get_elem? xs i ≡ none
get_elem?-none [] i h = refl
get_elem?-none (x ∷ xs) zero h = absurd (omega arith)
get_elem?-none (x ∷ xs) (suc i) h = get_elem?-none xs i (omega arith)

-- An instruction has one number.
decode-some : (b : ℕ) (op : Opcode) → decode b ≡ some op → b ≡ op_code op
decode-some b op e = elim (Bool-cases (ltb b 0x35)) [
  | inl small ↦
      let row =
        holds_below_lem 0x35 (λ b. elim (decode b) [ none ↦ true | some op ↦ op_code op == b ]) b
          code_table (ltb→lt b 0x35 small) in
      ground (arith, row, e)
  | inr large ↦
      let past = get_elem?-none opcode_table b (unfold opcode_table in ground arith) in
      unfold decode in ground (arith, past)
]

-- A step panics at an instruction if its branch does.
abbrev pub FaultsAt : State → Type 0
FaultsAt s =
    (op : Opcode) × (get_elem? s.bytecode s.pc ≡ some (op_code op))
    × Faults op (record s { pc = s.pc + 1 })

no_instruction : decode 255 ≡ none
unfolding decode
no_instruction = refl

fetched :
    (s s' : State) (b : ℕ) (op : Opcode)
    → fetch_u8 s ≡ some (b, s')
    → decode b ≡ some op
    → (get_elem? s.bytecode s.pc ≡ some (op_code op)) × (s' ≡ record s { pc = s.pc + 1 })
unfolding fetch_u8
fetched s s' b op e d = elim (Bool-cases (ltb (length s.bytecode) (s.pc + 1))) [
  | inl past ↦
      let last : b ≡ 255 = ground (arith, past) in
      let is_none : decode 255 ≡ none = no_instruction in
      absurd (ground (arith, d, ap decode last, is_none))
  | inr within ↦
      let (found, there) = get_elem?-some s.bytecode s.pc (ground arith) in
      let same : found ≡ b = ground (arith, within, there, e) in
      (there ∙ ap some (same ∙ decode-some b op d), ground (arith, within, there, e))
]

execute_byte-none :
    (t : Task) (o : Option Opcode) (s : State)
    → ((r : ℕ) → Fits (t.get_reg r).size (t.get_reg r).value)
    → execute_byte t o s ≡ none
    → (op : Opcode) × (o ≡ some op) × Faults op s
unfolding set_error
execute_byte-none t none s fits h = absurd (cc)
execute_byte-none t (some op) s fits h = (op, refl, execute-none t op s fits h)

dispatch-none :
    (t : Task) (s : State)
    → ((r : ℕ) → Fits (t.get_reg r).size (t.get_reg r).value)
    → dispatch t s ≡ none
    → FaultsAt s
unfolding dispatch
dispatch-none t s fits h =
    let (b, s', e) = fetch_u8_total s in
    let (op, is, faults) = execute_byte-none t (decode b) s' fits (rw (e, ◌>>=◌) at h) in
    let (there, same) = fetched s s' b op e is in (op, there, subst (Faults op) same faults)

pub fetch_u8-here :
    (s : State) (b : ℕ)
    → get_elem? s.bytecode s.pc ≡ some b
    → fetch_u8 s ≡ some (b, record s { pc = s.pc + 1 })
unfolding fetch_u8
fetch_u8-here s b e = ground (arith, get_elem?-lt s.bytecode s.pc e)

extend_by-63 :
    (f : ℕ → ℕ → Option ℕ) (s : State) → ((a : ℕ) → f a 63 ≡ none) → extend_by f 63 s ≡ none
unfolding extend_by extend_top pop_a
extend_by-63 f s h = go s.stack refl
  where
    go : (stack : List ℕ) → s.stack ≡ stack → extend_by f 63 s ≡ none
    go [] e = ground (arith, h minus_one)
    go (a ∷ rest) e = ground (arith, h a)

Faults-execute : (t : Task) (op : Opcode) (s : State) → Faults op s → execute t op s ≡ none
unfolding execute rem_signed ext_by sign_extend zero_extend low_mask
Faults-execute t op_rem_signed s (rest, h) = ground arith
Faults-execute t op_ext s h =
    rw (fetch_u8-here s 63 h, ◌>>=◌)
      (extend_by-63 sign_extend (record s { pc = s.pc + 1 }) (λ a. refl))
Faults-execute t op_zero_ext s h =
    rw (fetch_u8-here s 63 h, ◌>>=◌)
      (extend_by-63 zero_extend (record s { pc = s.pc + 1 }) (λ a. refl))
Faults-execute t _ s h = absurd h

FaultsAt-dispatch : (t : Task) (s : State) → FaultsAt s → dispatch t s ≡ none
unfolding dispatch
FaultsAt-dispatch t s (op, there, faults) =
    rw (fetch_u8-here s (op_code op) there, ◌>>=◌, decode-op_code op)
      (Faults-execute t op (record s { pc = s.pc + 1 }) faults)

step-error :
    (t : Task) (s : State) (e : Bool) → s.error ≡ e → step t s ≡ (if e then none else dispatch t s)
unfolding step
step-error t s e h = ap (λ (x : Bool). if x then none else dispatch t s) h

-- Where the values of the registers have the sizes that they say, a step panics (in a debug build)
-- exactly if the state has the error flag, or the next instruction is OP_rem_signed with i64::MIN
-- and -1 on the stack, or it is OP_ext or OP_zero_ext and the byte after it is 63. So no instruction
-- reads the bytecode or the stack out of range, and no other arithmetic panics.
pub step-none :
    (t : Task) (s : State)
    → ((r : ℕ) → Fits (t.get_reg r).size (t.get_reg r).value)
    → (step t s ≡ none) ↔ ((s.error ≡ true) ⊎ FaultsAt s)
step-none t s fits = elim (Bool-cases s.error) [
  | inl bad ↦ (λ h. inl bad, λ h. step-error t s true bad)
  | inr good ↦ (
    λ h. inr (dispatch-none t s fits (sym (step-error t s false good) ∙ h)),
    λ h. elim h [
      | inl bad ↦ absurd (ground arith)
      | inr at_fault ↦ step-error t s false good ∙ FaultsAt-dispatch t s at_fault
    ],
  )
]
