-- ===== src/GdbExpression/Step.antt =====
-- gdb_expression.rs: the instructions, and one step of the interpreter.
use rd.Prelude.{
  ℕ, ◌≡◌, refl, true, not, Option, none, some, List, [], ◌∷◌, bit_and, bit_or, bit_xor, get_elem?,
  ltb, leb, ◌==◌, if◌then◌else◌,
}
use rd.GdbExpression.Word.{
  add, sub, mul, div_signed, div_unsigned, rem_signed, rem_unsigned, lsh, rsh_signed, rsh_unsigned,
  log_not, bit_not, equal, less_signed, less_unsigned, sign_extend, zero_extend,
}
use rd.GdbExpression.State.{
  Task, value1, value2, value4, value8, RegisterValue, M, ◌>>=◌, ◌>>◌, pure, lift, set_error, pop,
  pop_a_b, nonzero, pop_a, push, fetch_u8, fetch_u16, fetch_u32, fetch_u64, load, pick,
}

-- The instructions, `OP_add` as `op_add`.
pub data Opcode : Type 0 where
  op_float op_add op_sub op_mul op_div_signed op_div_unsigned op_rem_signed op_rem_unsigned op_lsh
        op_rsh_signed op_rsh_unsigned op_trace op_trace_quick op_log_not op_bit_and op_bit_or
        op_bit_xor op_bit_not op_equal op_less_signed op_less_unsigned op_ext op_ref8 op_ref16
        op_ref32 op_ref64 op_ref_float op_ref_double op_ref_long_double op_l_to_d op_d_to_l
        op_if_goto op_goto op_const8 op_const16 op_const32 op_const64 op_reg op_end op_dup op_pop
        op_zero_ext op_swap op_getv op_setv op_tracev op_tracenz op_trace16 op_pick op_rot
        op_printf :
      Opcode

-- The number of an instruction.
unfoldable pub op_code : Opcode → ℕ
op_code op_float = 0x01
op_code op_add = 0x02
op_code op_sub = 0x03
op_code op_mul = 0x04
op_code op_div_signed = 0x05
op_code op_div_unsigned = 0x06
op_code op_rem_signed = 0x07
op_code op_rem_unsigned = 0x08
op_code op_lsh = 0x09
op_code op_rsh_signed = 0x0a
op_code op_rsh_unsigned = 0x0b
op_code op_trace = 0x0c
op_code op_trace_quick = 0x0d
op_code op_log_not = 0x0e
op_code op_bit_and = 0x0f
op_code op_bit_or = 0x10
op_code op_bit_xor = 0x11
op_code op_bit_not = 0x12
op_code op_equal = 0x13
op_code op_less_signed = 0x14
op_code op_less_unsigned = 0x15
op_code op_ext = 0x16
op_code op_ref8 = 0x17
op_code op_ref16 = 0x18
op_code op_ref32 = 0x19
op_code op_ref64 = 0x1a
op_code op_ref_float = 0x1b
op_code op_ref_double = 0x1c
op_code op_ref_long_double = 0x1d
op_code op_l_to_d = 0x1e
op_code op_d_to_l = 0x1f
op_code op_if_goto = 0x20
op_code op_goto = 0x21
op_code op_const8 = 0x22
op_code op_const16 = 0x23
op_code op_const32 = 0x24
op_code op_const64 = 0x25
op_code op_reg = 0x26
op_code op_end = 0x27
op_code op_dup = 0x28
op_code op_pop = 0x29
op_code op_zero_ext = 0x2a
op_code op_swap = 0x2b
op_code op_getv = 0x2c
op_code op_setv = 0x2d
op_code op_tracev = 0x2e
op_code op_tracenz = 0x2f
op_code op_trace16 = 0x30
op_code op_pick = 0x32
op_code op_rot = 0x33
op_code op_printf = 0x34

-- The instruction of a byte. The program turns the byte into an `Opcode` by `transmute`; a byte with
-- no instruction is taken to reach the catch-all branch.
unfoldable pub opcode_table : List (Option Opcode)
opcode_table =
    none
    ∷ some op_float
    ∷ some op_add
    ∷ some op_sub
    ∷ some op_mul
    ∷ some op_div_signed
    ∷ some op_div_unsigned
    ∷ some op_rem_signed
    ∷ some op_rem_unsigned
    ∷ some op_lsh
    ∷ some op_rsh_signed
    ∷ some op_rsh_unsigned
    ∷ some op_trace
    ∷ some op_trace_quick
    ∷ some op_log_not
    ∷ some op_bit_and
    ∷ some op_bit_or
    ∷ some op_bit_xor
    ∷ some op_bit_not
    ∷ some op_equal
    ∷ some op_less_signed
    ∷ some op_less_unsigned
    ∷ some op_ext
    ∷ some op_ref8
    ∷ some op_ref16
    ∷ some op_ref32
    ∷ some op_ref64
    ∷ some op_ref_float
    ∷ some op_ref_double
    ∷ some op_ref_long_double
    ∷ some op_l_to_d
    ∷ some op_d_to_l
    ∷ some op_if_goto
    ∷ some op_goto
    ∷ some op_const8
    ∷ some op_const16
    ∷ some op_const32
    ∷ some op_const64
    ∷ some op_reg
    ∷ some op_end
    ∷ some op_dup
    ∷ some op_pop
    ∷ some op_zero_ext
    ∷ some op_swap
    ∷ some op_getv
    ∷ some op_setv
    ∷ some op_tracev
    ∷ some op_tracenz
    ∷ some op_trace16
    ∷ none
    ∷ some op_pick
    ∷ some op_rot
    ∷ some op_printf
    ∷ []

abbrev pub flatten : Option (Option Opcode) → Option Opcode
flatten none = none
flatten (some o) = o

unfoldable pub decode : ℕ → Option Opcode
unfolding opcode_table
decode b = flatten (get_elem? opcode_table b)

abbrev pub binary : (ℕ → ℕ → ℕ) → M (Unit {0})
binary f = do (a, b) ← pop_a_b; push (f a b)

abbrev pub unary : (ℕ → ℕ) → M (Unit {0})
unary f = do a ← pop_a; push (f a)

unfoldable pub set_pc : ℕ → M (Unit {0})
set_pc offset s = some (tt, record s { pc = offset })

unfoldable pub set_end : M (Unit {0})
set_end s = some (tt, record s { end = true })

-- `push(v.valueN())` for the sizes that are known. A value of another size than it says is a panic.
unfoldable pub push_register : RegisterValue → M (Unit {0})
unfolding set_error push
push_register v s =
    if not v.defined
    then set_error s
    else if v.size == 1
    then elim v.value [ value1 x ↦ push x s | _ ↦ none ]
    else if v.size == 2
    then elim v.value [ value2 x ↦ push x s | _ ↦ none ]
    else if v.size == 4
    then elim v.value [ value4 x ↦ push x s | _ ↦ none ]
    else if v.size == 8
    then elim v.value [ value8 x ↦ push x s | _ ↦ none ]
    else set_error s

unfoldable pub read_register : Task → ℕ → M (Unit {0})
unfolding set_error push_register
read_register t r s = if ltb r t.num_registers then push_register (t.get_reg r) s else set_error s

unfoldable pub extend_top : (ℕ → ℕ → Option ℕ) → ℕ → M (Unit {0})
unfolding pop_a push
extend_top f n = do a ← pop_a; r ← lift (f a n); push r

-- OP_ext and OP_zero_ext leave the stack as it is where there is nothing to extend.
unfoldable pub extend_by : (ℕ → ℕ → Option ℕ) → ℕ → M (Unit {0})
unfolding extend_top
extend_by f n s = if leb 64 n then some (tt, s) else extend_top f n s

-- OP_ext, with the byte that it fetched.
unfoldable pub ext_by : ℕ → M (Unit {0})
unfolding nonzero extend_by
ext_by x = do n ← nonzero x; extend_by sign_extend n

unfoldable pub jump_if : ℕ → ℕ → M (Unit {0})
unfolding set_pc
jump_if a offset s = if not (a == 0) then set_pc offset s else some (tt, s)

-- The branches of the `match` of `step`; the last clause is the catch-all.
unfoldable pub execute : Task → Opcode → M (Unit {0})
unfolding set_error pop pop_a_b nonzero pop_a push load pick set_pc set_end push_register
    read_register extend_by jump_if
execute t op_add = binary add
execute t op_sub = binary sub
execute t op_mul = binary mul
execute t op_div_signed = do (a, b) ← pop_a_b; d ← nonzero b; push (div_signed a d)
execute t op_div_unsigned = do (a, b) ← pop_a_b; d ← nonzero b; push (div_unsigned a d)
execute t op_rem_signed = do (a, b) ← pop_a_b; d ← nonzero b; r ← lift (rem_signed a d); push r
execute t op_rem_unsigned = do (a, b) ← pop_a_b; d ← nonzero b; push (rem_unsigned a d)
execute t op_lsh = binary lsh
execute t op_rsh_signed = binary rsh_signed
execute t op_rsh_unsigned = binary rsh_unsigned
execute t op_log_not = unary log_not
execute t op_bit_and = binary bit_and
execute t op_bit_or = binary bit_or
execute t op_bit_xor = binary bit_xor
execute t op_bit_not = unary bit_not
execute t op_equal = binary equal
execute t op_less_signed = binary less_signed
execute t op_less_unsigned = binary less_unsigned
execute t op_ext = do x ← fetch_u8; ext_by x
execute t op_zero_ext = do n ← fetch_u8; extend_by zero_extend n
execute t op_ref8 = load t 1
execute t op_ref16 = load t 2
execute t op_ref32 = load t 4
execute t op_ref64 = load t 8
execute t op_dup = pick 0
execute t op_swap = do (a, b) ← pop_a_b; push b; push a
execute t op_pop = do _ ← pop_a; pure tt
execute t op_pick = do offset ← fetch_u8; pick offset
execute t op_rot = do c ← pop_a; b ← pop_a; a ← pop_a; push c; push b; push a
execute t op_if_goto = do offset ← fetch_u16; a ← pop_a; jump_if a offset
execute t op_goto = do offset ← fetch_u16; set_pc offset
execute t op_const8 = do a ← fetch_u8; push a
execute t op_const16 = do a ← fetch_u16; push a
execute t op_const32 = do a ← fetch_u32; push a
execute t op_const64 = do a ← fetch_u64; push a
execute t op_reg = do r ← fetch_u16; read_register t r
execute t op_end = set_end
execute t _ = set_error

abbrev pub execute_byte : Task → Option Opcode → M (Unit {0})
execute_byte t none = set_error
execute_byte t (some op) = execute t op

-- The match of `step` on the fetched byte.
unfoldable pub dispatch : Task → M (Unit {0})
unfolding set_error
dispatch t = do b ← fetch_u8; execute_byte t (decode b)

-- `none` where `debug_assert!(!self.error)` fails too.
unfoldable pub step : Task → M (Unit {0})
unfolding dispatch
step t s = if s.error then none else dispatch t s

-- The numbers of the instructions are told apart.
pub decode-op_code : (op : Opcode) → decode (op_code op) ≡ some op
unfolding decode op_code
decode-op_code op_add = refl
decode-op_code _ = refl
