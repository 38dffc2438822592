-- ===== src/GdbExpression/State.antt =====
-- gdb_expression.rs: the state of an evaluation, and what the instructions are made of.
use rd.Prelude.{
  ℕ, zero, suc, ◌+◌, ◌-◌, ◌*◌, ◌%◌, ◌^◌, Bool, true, false, Option, none, some, List, [], ◌∷◌,
  bit_or, length, get_elem?, ltb, if◌then◌else◌,
}
use rd.GdbExpression.Word.{minus_one}

-- The data of a GdbRegisterValue, with the case of `GdbRegisterValueData`.
pub data RegisterData : Type 0 where
  value_generic : List ℕ → RegisterData
  value1 value2 value4 value8 : ℕ → RegisterData

pub record RegisterValue : Type 0 where
  pub value : RegisterData
  pub defined : Bool
  pub size : ℕ

-- What an evaluation asks of the tracee: `read_val_mem` of so many bytes at an address, `none` if
-- they cannot be read, `GdbServer::get_reg`, and the number of registers that gdb knows.
pub record Task : Type 0 where
  pub read_mem : ℕ → ℕ → Option ℕ
  pub get_reg : ℕ → RegisterValue
  pub num_registers : ℕ

-- ExpressionState. The head of `stack` is its top, the last element of the vector.
pub record State : Type 0 where
  pub bytecode : List ℕ
  pub stack : List ℕ
  pub pc : ℕ
  pub error : Bool
  pub end : Bool

-- ExpressionState::new
abbrev pub new : List ℕ → State
new bytecode = record { bytecode = bytecode; stack = []; pc = 0; error = false; end = false }

-- A method of the state; `none` is a panic.
abbrev pub M : Type 0 → Type 0
M A = State → Option (A × State)

infixl 5 ◌>>=◌ ◌>>◌
abbrev pub ◌>>=◌ : {A B : Type 0} → M A → (A → M B) → M B
◌>>=◌ m f s = elim (m s) [ none ↦ none | some (a, s') ↦ f a s' ]

abbrev pub ◌>>◌ : {B : Type 0} → M (Unit {0}) → M B → M B
◌>>◌ m k s = elim (m s) [ none ↦ none | some (a, s') ↦ k s' ]

abbrev pub pure : {A : Type 0} → A → M A
pure a s = some (a, s)

-- A pure computation that may panic.
abbrev pub lift : {A : Type 0} → Option A → M A
lift o s = elim o [ none ↦ none | some a ↦ some (a, s) ]

unfoldable pub set_error : M (Unit {0})
set_error s = some (tt, record s { error = true })

unfoldable pub pop : M ℕ
pop s = elim s.stack [
  | [] ↦ some (minus_one, record s { error = true })
  | v ∷ rest ↦ some (v, record s { stack = rest })
]

-- The value under the top comes first.
unfoldable pub pop_a_b : M (ℕ × ℕ)
unfolding pop
pop_a_b = do b ← pop; a ← pop; pure (a, b)

unfoldable pub nonzero : ℕ → M ℕ
nonzero zero s = some (1, record s { error = true })
nonzero (suc v) s = some (suc v, s)

unfoldable pub pop_a : M ℕ
unfolding pop
pop_a = pop

unfoldable pub push : ℕ → M (Unit {0})
push i s = some (tt, record s { stack = i ∷ s.stack })

-- The loop of the fetches: the bytes from `pc` on, the highest first, in `bits` bits. An index out
-- of range is a panic.
unfoldable pub fetch_bytes : ℕ → ℕ → ℕ → ℕ → List ℕ → Option ℕ
fetch_bytes bits zero pc v bytecode = some v
fetch_bytes bits (suc n) pc v bytecode = elim (get_elem? bytecode pc) [
  | none ↦ none
  | some b ↦ fetch_bytes bits n (pc + 1) (bit_or (v * 2 ^ 8 % 2 ^ bits) b) bytecode
]

abbrev pub fetch : ℕ → M ℕ
fetch n s =
    if ltb (length s.bytecode) (s.pc + n)
    then some (2 ^ (8 * n) - 1, record s { error = true })
    else elim (fetch_bytes (8 * n) n s.pc 0 s.bytecode) [
      | none ↦ none
      | some v ↦ some (v, record s { pc = s.pc + n })
    ]

-- The one fetch that has no loop.
unfoldable pub fetch_u8 : M ℕ
fetch_u8 s =
    if ltb (length s.bytecode) (s.pc + 1)
    then some (2 ^ 8 - 1, record s { error = true })
    else elim (get_elem? s.bytecode s.pc) [
      | none ↦ none
      | some v ↦ some (v, record s { pc = s.pc + 1 })
    ]

unfoldable pub fetch_u16 : M ℕ
fetch_u16 = fetch 2

unfoldable pub fetch_u32 : M ℕ
fetch_u32 = fetch 4

unfoldable pub fetch_u64 : M ℕ
fetch_u64 = fetch 8

-- An address on the stack that cannot be read is an error; so is an empty stack, with no read.
unfoldable pub load_at : Task → ℕ → ℕ → M (Unit {0})
unfolding set_error push
load_at t size addr s =
    if s.error
    then some (tt, s)
    else elim (t.read_mem size addr) [ none ↦ set_error s | some v ↦ push v s ]

unfoldable pub load : Task → ℕ → M (Unit {0})
unfolding pop load_at
load t size = do addr ← pop; load_at t size addr

unfoldable pub pick : ℕ → M (Unit {0})
unfolding set_error push
pick offset s = elim (get_elem? s.stack offset) [ none ↦ set_error s | some v ↦ push v s ]
