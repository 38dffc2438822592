-- ===== src/GdbExpression/Compile/Code.antt =====
-- One instruction at a time: what the interpreter does where the instruction stands.
use rd.Prelude.{
  ℕ, zero, suc, ◌+◌, ◌*◌, ◌/◌, ◌%◌, ◌<◌, ◌≡◌, refl, ap, ◌∙◌, false, some, List, [], ◌∷◌, arith,
  length, ◌==◌, if◌then◌else◌,
}
use native.Mathlib.Nat.{add_assoc}
use rd.GdbExpression.State.{Task, State, ◌>>=◌, fetch, fetch_u16, fetch_u32, fetch_u64}
use rd.GdbExpression.Step.{
  Opcode, op_code, decode-op_code, execute, step, dispatch, op_if_goto, op_goto,
}
use rd.GdbExpression.Evaluate.{run}
use rd.GdbExpression.Compile.{
  Width, w8, w16, w32, w64, bytes_of, Unary, logical_not, complement, Binary, quotient,
  quotient_unsigned, remainder, remainder_unsigned, be_value, ByteList, unary_value, binary_value,
  const_op, memory_op, unary_op, binary_op,
}
use rd.GdbExpression.Compile.Fetch.{At, fetch_u8-At, fetch-At}

-- A state that goes on.
abbrev pub live : List ℕ → ℕ → List ℕ → State
live code pc stack = record { bytecode = code; stack = stack; pc = pc; error = false; end = false }

module _ (t : Task) where
  -- `n` steps lead from one state to the other, whatever number of steps is left then.
  pub record Reaches (n : ℕ) (s s' : State) : Type 0 where
    pub run_on : (k : ℕ) → run t (n + k) s ≡ run t k s'

  pub Reaches-trans :
      {n m : ℕ} {a b c : State} → Reaches n a b → Reaches m b c → Reaches (n + m) a c
  Reaches-trans {n} {m} {a} {b} {c} r q = record {
    run_on = λ k. rw (add_assoc n m k) (r.run_on (m + k) ∙ q.run_on k);
  }

  one_step :
      (code : List ℕ) (pc : ℕ) (stack : List ℕ) (s' : State)
      → step t (live code pc stack) ≡ some (tt, s')
      → Reaches 1 (live code pc stack) s'
  unfolding run
  one_step code pc stack s' h = record {
    run_on = λ k. let e : 1 + k ≡ suc k = omega arith in rw (e, h, run) refl;
  }

  -- An instruction is executed with the program counter behind its first byte.
  step_at :
      (op : Opcode) (args code : List ℕ) (pc : ℕ) (stack : List ℕ)
      → At code pc (op_code op ∷ args)
      → step t (live code pc stack) ≡ execute t op (live code (pc + 1) stack)
  unfolding step dispatch
  step_at op args code pc stack a =
      rw (fetch_u8-At (live code pc stack) (op_code op) a, ◌>>=◌, decode-op_code op) refl

  pub instruction :
      (op : Opcode) (args code : List ℕ) (pc : ℕ) (stack : List ℕ) (s' : State)
      → At code pc (op_code op ∷ args)
      → execute t op (live code (pc + 1) stack) ≡ some (tt, s')
      → Reaches 1 (live code pc stack) s'
  instruction op args code pc stack s' a h =
      one_step code pc stack s' (step_at op args code pc stack a ∙ h)

  pub execute_const :
      (w : Width) (bs code : List ℕ) (pc : ℕ) (stack : List ℕ)
      → length bs ≡ bytes_of w
      → ByteList bs
      → At code pc bs
      → execute t (const_op w) (live code pc stack)
        ≡ some (tt, live code (pc + bytes_of w) (be_value 0 bs ∷ stack))
  unfolding execute fetch_u16 fetch_u32 fetch_u64
  execute_const w8 [] code pc stack e h a = absurd (omega arith)
  execute_const w8 (b ∷ []) code pc stack e h a =
      rw (fetch_u8-At (live code pc stack) b a, ◌>>=◌) (ground arith)
  execute_const w8 (b ∷ c ∷ bs) code pc stack e h a = absurd (omega arith)
  execute_const w16 bs code pc stack e h a =
      rw (← e) (rw (fetch-At (live code pc stack) bs a h (omega arith), ◌>>=◌) refl)
  execute_const w32 bs code pc stack e h a =
      rw (← e) (rw (fetch-At (live code pc stack) bs a h (omega arith), ◌>>=◌) refl)
  execute_const w64 bs code pc stack e h a =
      rw (← e) (rw (fetch-At (live code pc stack) bs a h (omega arith), ◌>>=◌) refl)

  pub execute_memory :
      (w : Width) (a v : ℕ) (code : List ℕ) (pc : ℕ) (stack : List ℕ)
      → t.read_mem (bytes_of w) a ≡ some v
      → execute t (memory_op w) (live code pc (a ∷ stack)) ≡ some (tt, live code pc (v ∷ stack))
  unfolding execute
  execute_memory w8 a v code pc stack e = ground arith
  execute_memory w16 a v code pc stack e = ground arith
  execute_memory w32 a v code pc stack e = ground arith
  execute_memory w64 a v code pc stack e = ground arith

  pub execute_unary :
      (op : Unary) (a : ℕ) (code : List ℕ) (pc : ℕ) (stack : List ℕ)
      → execute t (unary_op op) (live code pc (a ∷ stack))
        ≡ some (tt, live code pc (unary_value op a ∷ stack))
  unfolding execute
  execute_unary logical_not a code pc stack = refl
  execute_unary complement a code pc stack = refl

  pub execute_binary :
      (op : Binary) (a b v : ℕ) (code : List ℕ) (pc : ℕ) (stack : List ℕ)
      → binary_value op a b ≡ some v
      → execute t (binary_op op) (live code pc (b ∷ a ∷ stack))
        ≡ some (tt, live code pc (v ∷ stack))
  unfolding execute
  execute_binary quotient a zero v code pc stack e = ground arith
  execute_binary quotient a (suc b) v code pc stack e = ground arith
  execute_binary quotient_unsigned a zero v code pc stack e = ground arith
  execute_binary quotient_unsigned a (suc b) v code pc stack e = ground arith
  execute_binary remainder_unsigned a zero v code pc stack e = ground arith
  execute_binary remainder_unsigned a (suc b) v code pc stack e = ground arith
  execute_binary remainder a zero v code pc stack e = ground arith
  execute_binary remainder a (suc b) v code pc stack e = ground arith
  execute_binary _ a b v code pc stack e = ground arith

  -- The two bytes of a jump.
  fetch_address :
      (address : ℕ) (code : List ℕ) (pc : ℕ) (stack : List ℕ)
      → address < 65536
      → At code pc (address / 256 ∷ address % 256 ∷ [])
      → fetch 2 (live code pc stack) ≡ some (address, live code (pc + 2) stack)
  fetch_address address code pc stack small a =
      let joined : (0 * 256 + address / 256) * 256 + address % 256 ≡ address = omega arith in
      fetch-At (live code pc stack) (address / 256 ∷ address % 256 ∷ []) a (omega arith)
        (omega arith)
      ∙ ap (λ v. some (v, live code (pc + 2) stack)) joined

  pub execute_goto :
      (address : ℕ) (code : List ℕ) (pc : ℕ) (stack : List ℕ)
      → address < 65536
      → At code pc (address / 256 ∷ address % 256 ∷ [])
      → execute t op_goto (live code pc stack) ≡ some (tt, live code address stack)
  unfolding execute fetch_u16
  execute_goto address code pc stack small a =
      rw (fetch_address address code pc stack small a, ◌>>=◌) refl

  pub execute_if_goto :
      (address v : ℕ) (code : List ℕ) (pc : ℕ) (stack : List ℕ)
      → address < 65536
      → At code pc (address / 256 ∷ address % 256 ∷ [])
      → execute t op_if_goto (live code pc (v ∷ stack))
        ≡ some (tt, live code (if v == 0 then pc + 2 else address) stack)
  unfolding execute fetch_u16
  execute_if_goto address v code pc stack small a =
      rw (fetch_address address code pc (v ∷ stack) small a, ◌>>=◌) (ground arith)
