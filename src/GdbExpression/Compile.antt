-- ===== src/GdbExpression/Compile.antt =====
-- gdb_expression.rs against a language of expressions: what they mean, and bytecode for them.
mod Fetch
mod Code
pub mod Correct
use rd.Prelude.{
  ℕ, ◌+◌, ◌*◌, ◌/◌, ◌%◌, ◌<◌, ◌≡◌, Bool, Option, none, some, List, [], ◌∷◌, ◌++◌, bit_and, bit_or,
  bit_xor, length, ◌==◌, if◌then◌else◌,
}
use rd.GdbExpression.Word.{
  add, sub, mul, div_signed, div_unsigned, rem_signed, rem_unsigned, lsh, rsh_signed, rsh_unsigned,
  log_not, bit_not, equal, less_signed, less_unsigned,
}
use rd.GdbExpression.State.{Task}
use rd.GdbExpression.Step.{
  Opcode, op_code, op_add, op_sub, op_mul, op_div_signed, op_div_unsigned, op_rem_signed,
  op_rem_unsigned, op_lsh, op_rsh_signed, op_rsh_unsigned, op_log_not, op_bit_and, op_bit_or,
  op_bit_xor, op_bit_not, op_equal, op_less_signed, op_less_unsigned, op_ref8, op_ref16, op_ref32,
  op_ref64, op_const8, op_const16, op_const32, op_const64, op_if_goto, op_goto, op_end,
}

pub data Width : Type 0 where
  w8 w16 w32 w64 : Width

abbrev pub bytes_of : Width → ℕ
bytes_of w8 = 1
bytes_of w16 = 2
bytes_of w32 = 4
bytes_of w64 = 8

pub data Unary : Type 0 where
  logical_not complement : Unary

pub data Binary : Type 0 where
  plus minus times quotient quotient_unsigned remainder remainder_unsigned : Binary
  shift_left shift_right shift_right_unsigned conjunction disjunction exclusive : Binary
  equals less less_unsigned_than : Binary

-- A constant is its bytes, the highest first.
pub data Expr : Type 0 where
  const : Width → List ℕ → Expr
  memory : Width → Expr → Expr
  unary : Unary → Expr → Expr
  binary : Binary → Expr → Expr → Expr
  choose : Expr → Expr → Expr → Expr

abbrev pub be_value : ℕ → List ℕ → ℕ
be_value v [] = v
be_value v (b ∷ bs) = be_value (v * 256 + b) bs

abbrev pub unary_value : Unary → ℕ → ℕ
unary_value logical_not a = log_not a
unary_value complement a = bit_not a

abbrev pub unless_zero : ℕ → ℕ → Option ℕ
unless_zero b v = if b == 0 then none else some v

-- A division by zero, and the remainder of i64::MIN by -1, have no value.
abbrev pub binary_value : Binary → ℕ → ℕ → Option ℕ
binary_value plus a b = some (add a b)
binary_value minus a b = some (sub a b)
binary_value times a b = some (mul a b)
binary_value quotient a b = unless_zero b (div_signed a b)
binary_value quotient_unsigned a b = unless_zero b (div_unsigned a b)
binary_value remainder a b = if b == 0 then none else rem_signed a b
binary_value remainder_unsigned a b = unless_zero b (rem_unsigned a b)
binary_value shift_left a b = some (lsh a b)
binary_value shift_right a b = some (rsh_signed a b)
binary_value shift_right_unsigned a b = some (rsh_unsigned a b)
binary_value conjunction a b = some (bit_and a b)
binary_value disjunction a b = some (bit_or a b)
binary_value exclusive a b = some (bit_xor a b)
binary_value equals a b = some (equal a b)
binary_value less a b = some (less_signed a b)
binary_value less_unsigned_than a b = some (less_unsigned a b)

infixl 5 ◌>>=◌
abbrev ◌>>=◌ : Option ℕ → (ℕ → Option ℕ) → Option ℕ
none >>= f = none
some a >>= f = f a

-- What an expression means; `none` where it has no value. Only the branch that is chosen counts.
unfoldable pub eval : Task → Expr → Option ℕ
eval t (const w bs) = some (be_value 0 bs)
eval t (memory w e) = eval t e >>= t.read_mem (bytes_of w)
eval t (unary op e) = eval t e >>= λ a. some (unary_value op a)
eval t (binary op d e) = eval t d >>= λ a. eval t e >>= binary_value op a
eval t (choose c d e) =
    let then_value = eval t d in
    let else_value = eval t e in eval t c >>= λ v. if v == 0 then else_value else then_value

abbrev pub const_op : Width → Opcode
const_op w8 = op_const8
const_op w16 = op_const16
const_op w32 = op_const32
const_op w64 = op_const64

abbrev pub memory_op : Width → Opcode
memory_op w8 = op_ref8
memory_op w16 = op_ref16
memory_op w32 = op_ref32
memory_op w64 = op_ref64

abbrev pub unary_op : Unary → Opcode
unary_op logical_not = op_log_not
unary_op complement = op_bit_not

abbrev pub binary_op : Binary → Opcode
binary_op plus = op_add
binary_op minus = op_sub
binary_op times = op_mul
binary_op quotient = op_div_signed
binary_op quotient_unsigned = op_div_unsigned
binary_op remainder = op_rem_signed
binary_op remainder_unsigned = op_rem_unsigned
binary_op shift_left = op_lsh
binary_op shift_right = op_rsh_signed
binary_op shift_right_unsigned = op_rsh_unsigned
binary_op conjunction = op_bit_and
binary_op disjunction = op_bit_or
binary_op exclusive = op_bit_xor
binary_op equals = op_equal
binary_op less = op_less_signed
binary_op less_unsigned_than = op_less_unsigned

-- The bytes of the code.
abbrev pub size : Expr → ℕ
size (const w bs) = 1 + length bs
size (memory w e) = size e + 1
size (unary op e) = size e + 1
size (binary op d e) = size d + (size e + 1)
size (choose c d e) = size c + (3 + (size e + (3 + size d)))

-- A jump to an address, in two bytes.
abbrev pub jump : Opcode → ℕ → List ℕ
jump op address = op_code op ∷ address / 256 ∷ address % 256 ∷ []

-- The code of an expression, for a given address. A choice tests, jumps over the second branch to
-- the first one if the test is not 0, and jumps over the first one after the second.
pub compile : ℕ → Expr → List ℕ
compile at (const w bs) = op_code (const_op w) ∷ bs
compile at (memory w e) = compile at e ++ (op_code (memory_op w) ∷ [])
compile at (unary op e) = compile at e ++ (op_code (unary_op op) ∷ [])
compile at (binary op d e) =
    compile at d ++ (compile (at + size d) e ++ (op_code (binary_op op) ∷ []))
compile at (choose c d e) =
    let second = at + size c + 3 in
    let first = second + size e + 3 in
    compile at c
    ++ (jump op_if_goto first
        ++ (compile second e ++ (jump op_goto (first + size d) ++ compile first d)))

abbrev pub ByteList : List ℕ → Type 0
ByteList [] = Unit
ByteList (b ∷ bs) = (b < 256) × ByteList bs

-- Constants have the bytes of their width.
abbrev pub WellFormed : Expr → Type 0
WellFormed (const w bs) = (length bs ≡ bytes_of w) × ByteList bs
WellFormed (memory w e) = WellFormed e
WellFormed (unary op e) = WellFormed e
WellFormed (binary op d e) = WellFormed d × WellFormed e
WellFormed (choose c d e) = WellFormed c × WellFormed d × WellFormed e
