-- ===== src/GdbExpression/Examples.antt =====
-- Agent expressions at work, on a tracee with one readable word and no registers.
use rd.Prelude.{
  ℕ, ◌-◌, ◌^◌, ◌≡◌, ◌↔◌, ◌⊎◌, inr, refl, true, false, none, some, List, [], ◌∷◌, arith, ◌==◌,
  if◌then◌else◌,
}
use rd.GdbExpression.Word.{
  min_i64, minus_one, add, less_unsigned, div_signed, rem_signed, sign_extend, lsh, rsh_signed,
}
use rd.GdbExpression.State.{Task, State, value_generic, new, fetch_u8}
use rd.GdbExpression.Step.{execute, decode, step, dispatch, op_code, op_rem_signed}
use rd.GdbExpression.Evaluate.{run, run_variant, evaluate, bytecode_variants}
use rd.GdbExpression.Panics.{Fits, step-none, FaultsAt}
use rd.GdbExpression.Compile.{
  Expr, const, memory, binary, choose, w8, w16, plus, less_unsigned_than, eval,
}
use rd.GdbExpression.Compile.Correct.{program, evaluate-program}

abbrev tracee : Task
tracee = record {
  read_mem = λ size addr. if addr == 0x1000 then some 7 else none;
  get_reg = λ r. record { value = value_generic []; defined = false; size = 0 };
  num_registers = 0;
}

tracee-Fits : (r : ℕ) → Fits (tracee.get_reg r).size (tracee.get_reg r).value
tracee-Fits r = (
  λ e. absurd (omega arith),
  λ e. absurd (omega arith),
  λ e. absurd (omega arith),
  λ e. absurd (omega arith),
)

-- `*(u8*)0x1000 < 5 ? 1 : *(u8*)0x1000 + 2`
abbrev expression : Expr
expression =
    let word : Expr = memory w8 (const w16 (0x10 ∷ 0x00 ∷ [])) in
    choose (binary less_unsigned_than word (const w8 (5 ∷ []))) (const w8 (1 ∷ []))
      (binary plus word (const w8 (2 ∷ [])))

expression_value : eval tracee expression ≡ some 9
unfolding eval add less_unsigned
expression_value = refl

evaluate-program_example :
    evaluate tracee (bytecode_variants (program expression)) 0 ≡ some (true, 9)
evaluate-program_example =
    evaluate-program tracee expression 9 0 (omega arith) (omega arith) expression_value

-- OP_const8 3, OP_end
abbrev three : List ℕ
three = 0x22 ∷ 3 ∷ 0x27 ∷ []

evaluate-three : evaluate tracee (three ∷ three ∷ []) 0 ≡ some (true, 3)
unfolding evaluate run_variant run step dispatch decode execute fetch_u8
evaluate-three = refl

-- OP_rem_signed on i64::MIN and -1
abbrev remainder_state : State
remainder_state = record (new (0x07 ∷ [])) { stack = minus_one ∷ min_i64 ∷ [] }

step-none_example :
    (step tracee remainder_state ≡ none)
    ↔ ((remainder_state.error ≡ true) ⊎ FaultsAt remainder_state)
step-none_example = step-none tracee remainder_state tracee-Fits

remainder_panics : step tracee remainder_state ≡ none
unfolding decode op_code
remainder_panics =
    (step-none tracee remainder_state tracee-Fits).1 (inr (op_rem_signed, refl, ([], refl)))

-- -7 / 2, -7 % 2, the sign extension of 0x80, a shift by 65 and an arithmetic shift
words :
    (div_signed (2 ^ 64 - 7) 2 ≡ 2 ^ 64 - 3)
    × (rem_signed (2 ^ 64 - 7) 2 ≡ some minus_one)
    × (sign_extend 0x180 8 ≡ some (2 ^ 64 - 128))
    × (lsh 3 65 ≡ 6)
    × (rsh_signed (2 ^ 64 - 8) 1 ≡ 2 ^ 64 - 4)
unfolding div_signed rem_signed sign_extend lsh rsh_signed
words = (refl, refl, refl, refl, refl)
