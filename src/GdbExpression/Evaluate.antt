-- ===== src/GdbExpression/Evaluate.antt =====
-- gdb_expression.rs: GdbExpression, the loop over the steps and the loop over the variants.
use rd.Prelude.{
  ℕ, zero, suc, Bool, true, false, not, Option, none, some, List, [], ◌∷◌, ◌==◌, if◌then◌else◌,
}
use rd.GdbExpression.State.{Task, State, new, pop}
use rd.GdbExpression.Step.{step}

-- How the loop over the steps ends: a panic in a step, `return false`, or OP_end.
pub data Run : Type 0 where
  panicked gave_up : Run
  ended : State → Run

-- The loop, with the number of steps that are left.
unfoldable pub run : Task → ℕ → State → Run
run t zero s = elim s.end [ true ↦ ended s | false ↦ gave_up ]
run t (suc n) s = elim s.end [
  | true ↦ ended s
  | false ↦ elim s.error [
    | true ↦ gave_up
    | false ↦ elim (step t s) [ none ↦ panicked | some (_, s') ↦ run t n s' ]
  ]
]

abbrev pub max_steps : ℕ
max_steps = 10000

-- What one variant of the bytecode gives: `none` for a panic, and no value for `return false`.
unfoldable pub run_variant : Task → ℕ → List ℕ → Option (Option ℕ)
unfolding pop
run_variant t steps bytecode = elim (run t steps (new bytecode)) [
  | panicked ↦ none
  | gave_up ↦ some none
  | ended s ↦ elim (pop s) [ none ↦ none | some (v, s') ↦ some (if s'.error then none else some v) ]
]

-- The loop over the variants. The second number is `*result`, which a failure leaves as it stands.
unfoldable pub evaluate_variants : Task → ℕ → Bool → ℕ → List (List ℕ) → Option (Bool × ℕ)
evaluate_variants t steps first result [] = some (true, result)
evaluate_variants t steps first result (b ∷ bs) = elim (run_variant t steps b) [
  | none ↦ none
  | some none ↦ some (false, result)
  | some (some v) ↦
      if first
      then evaluate_variants t steps false v bs
      else if not (result == v)
      then some (false, result)
      else evaluate_variants t steps false result bs
]

abbrev pub is_nil : List (List ℕ) → Bool
is_nil [] = true
is_nil (_ ∷ _) = false

-- GdbExpression::evaluate: the returned flag and `*result`; `none` is a panic.
unfoldable pub evaluate : Task → List (List ℕ) → ℕ → Option (Bool × ℕ)
unfolding evaluate_variants
evaluate t bytecode_variants result =
    if is_nil bytecode_variants
    then some (false, result)
    else evaluate_variants t max_steps true result bytecode_variants

-- GdbExpression::new: the bytecode is its only variant.
abbrev pub bytecode_variants : List ℕ → List (List ℕ)
bytecode_variants bytes = bytes ∷ []
