-- ===== src/GdbExpression/Agree.antt =====
-- gdb_expression.rs: what a successful evaluation says of the variants of the bytecode.
use rd.Prelude.{ℕ, ◌≡◌, refl, true, false, some, List, [], ◌∷◌, arith, inl, inr, Option-cases}
use rd.GdbExpression.State.{Task}
use rd.GdbExpression.Evaluate.{run_variant, evaluate, evaluate_variants, max_steps}

-- Every variant ends within the limit and gives `v`.
abbrev pub AllGive : Task → ℕ → ℕ → List (List ℕ) → Type 0
AllGive t steps v [] = Unit
AllGive t steps v (b ∷ bs) = (run_variant t steps b ≡ some (some v)) × AllGive t steps v bs

later_agree :
    (t : Task) (steps result v : ℕ) (bs : List (List ℕ))
    → evaluate_variants t steps false result bs ≡ some (true, v)
    → (result ≡ v) × AllGive t steps v bs
unfolding evaluate_variants
later_agree t steps result v [] h = ground arith
later_agree t steps result v (b ∷ bs) h = ground (arith, later_agree t steps result v bs)

agree :
    (t : Task) (steps result v : ℕ) (b : List ℕ) (bs : List (List ℕ))
    → evaluate_variants t steps true result (b ∷ bs) ≡ some (true, v)
    → AllGive t steps v (b ∷ bs)
unfolding evaluate_variants
agree t steps result v b bs h = elim (Option-cases (run_variant t steps b)) [
  | inl e ↦ absurd (ground arith)
  | inr (o, e) ↦ elim (Option-cases o) [
    | inl e' ↦ absurd (ground arith)
    | inr (w, e') ↦
        let rest = later_agree t steps w v bs (ground arith) in (ground (arith, rest.0), rest.1)
  ]
]

later_give :
    (t : Task) (steps v : ℕ) (bs : List (List ℕ))
    → AllGive t steps v bs
    → evaluate_variants t steps false v bs ≡ some (true, v)
unfolding evaluate_variants
later_give t steps v [] h = refl
later_give t steps v (b ∷ bs) h = ground (arith, later_give t steps v bs h.1)

-- `evaluate` returns true with a value only if every variant of the bytecode ends within the limit on
-- steps, without an error and with that value.
pub evaluate-agree :
    (t : Task) (before v : ℕ) (b : List ℕ) (bs : List (List ℕ))
    → evaluate t (b ∷ bs) before ≡ some (true, v)
    → AllGive t max_steps v (b ∷ bs)
unfolding evaluate
evaluate-agree t before v b bs h = agree t max_steps before v b bs h

-- If every variant of the bytecode ends within the limit on steps, without an error and with the same
-- value, `evaluate` returns true with that value.
pub evaluate-give :
    (t : Task) (before v : ℕ) (b : List ℕ) (bs : List (List ℕ))
    → AllGive t max_steps v (b ∷ bs)
    → evaluate t (b ∷ bs) before ≡ some (true, v)
unfolding evaluate
evaluate-give t before v b bs h = rw (h.0, evaluate_variants) (later_give t max_steps v bs h.1)
