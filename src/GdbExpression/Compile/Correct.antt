-- ===== src/GdbExpression/Compile/Correct.antt =====
-- The interpreter of gdb_expression.rs computes what an expression means, from the code for it.
use rd.Prelude.{
  ℕ, zero, suc, ◌+◌, ◌-◌, ◌/◌, ◌%◌, ◌≤◌, ◌<◌, ◌≡◌, inl, inr, refl, sym, ap, subst, ◌∙◌, true,
  Option, none, some, List, [], ◌∷◌, ◌++◌, arith, length, length-append, ◌==◌, if◌then◌else◌,
  Bool-cases,
}
use mathlib.Core.List.{append-nil}
use rd.GdbExpression.State.{Task, State, new}
use rd.GdbExpression.Step.{Opcode, op_code, execute, op_if_goto, op_goto, op_end}
use rd.GdbExpression.Evaluate.{
  run, ended, run_variant, evaluate, evaluate_variants, max_steps, bytecode_variants,
}
use rd.GdbExpression.Compile.{
  Expr, const, memory, unary, binary, choose, Width, bytes_of, Unary, Binary, unary_value,
  binary_value, const_op, memory_op, unary_op, binary_op, jump, eval, size, compile, WellFormed,
  ◌>>=◌,
}
use rd.GdbExpression.Compile.Fetch.{At, At-tail, At-append_left, At-append_right, At-fits}
use rd.GdbExpression.Compile.Code.{
  live, Reaches, Reaches-trans, instruction, execute_const, execute_memory, execute_unary,
  execute_binary, execute_goto, execute_if_goto,
}

length-compile : (e : Expr) (at : ℕ) → length (compile at e) ≡ size e
unfolding compile
length-compile (const w bs) at = omega arith
length-compile (memory w e) at =
    omega (arith, length-append (compile at e) (op_code (memory_op w) ∷ []), length-compile e at)
length-compile (unary op e) at =
    omega (arith, length-append (compile at e) (op_code (unary_op op) ∷ []), length-compile e at)
length-compile (binary op d e) at =
    let second : List ℕ = compile (at + size d) e in
    omega (
      arith,
      length-append (compile at d) (second ++ (op_code (binary_op op) ∷ [])),
      length-append second (op_code (binary_op op) ∷ []),
      length-compile d at,
      length-compile e (at + size d),
    )
length-compile (choose c d e) at =
    let second = at + size c + 3 in
    let first = second + size e + 3 in
    omega (
      arith,
      length-append (compile at c) (
          jump op_if_goto first
          ++ (compile second e ++ (jump op_goto (first + size d) ++ compile first d))),
      length-append (compile second e) (jump op_goto (first + size d) ++ compile first d),
      length-compile c at,
      length-compile d first,
      length-compile e second,
    )

bind_some :
    (o : Option ℕ) (f : ℕ → Option ℕ) {v : ℕ}
    → (o >>= f) ≡ some v
    → (a : ℕ) × (o ≡ some a) × (f a ≡ some v)
bind_some none f h = cc
bind_some (some a) f h = (a, refl, h)

some_inj : {a b : ℕ} → ◌≡◌ {A = Option ℕ} (some a) (some b) → a ≡ b
some_inj h = cc

size_pos : (e : Expr) → 0 < size e
size_pos (const w bs) = omega arith
size_pos (memory w e) = omega arith
size_pos (unary op e) = omega arith
size_pos (binary op d e) = omega arith
size_pos (choose c d e) = omega arith

-- The code of an expression and the end.
pub program : Expr → List ℕ
program e = compile 0 e ++ (op_code op_end ∷ [])

module _ (t : Task) where
  -- From one state to another in at most `bound` steps.
  record Within (bound : ℕ) (s s' : State) : Type 0 where
    steps : ℕ
    enough : steps ≤ bound
    path : Reaches t steps s s'

  then_instruction :
      (op : Opcode) {bound : ℕ} {s : State} (code : List ℕ) (pc : ℕ) (stack args : List ℕ)
      (s' : State)
      → Within bound s (live code pc stack)
      → At code pc (op_code op ∷ args)
      → execute t op (live code (pc + 1) stack) ≡ some (tt, s')
      → Within (bound + 1) s s'
  then_instruction op code pc stack args s' w a h = record {
    steps = w.steps + 1;
    enough = omega (arith, w.enough);
    path = Reaches-trans t w.path (instruction t op args code pc stack s' a h);
  }

  then-Within : {n m : ℕ} {a b c : State} → Within n a b → Within m b c → Within (n + m) a c
  then-Within w v = record {
    steps = w.steps + v.steps;
    enough = omega (arith, w.enough, v.enough);
    path = Reaches-trans t w.path v.path;
  }

  relax : {n m : ℕ} {a b : State} → n ≤ m → Within n a b → Within m a b
  relax h w = record { steps = w.steps; enough = omega (arith, w.enough); path = w.path }

  -- The same state, with its program counter written in another way.
  at_pc :
      {n : ℕ} {s : State} {code stack : List ℕ} (pc pc' : ℕ)
      → pc ≡ pc'
      → Within n s (live code pc stack)
      → Within n s (live code pc' stack)
  at_pc {n} {s} {code} {stack} pc pc' e w = subst (λ p. Within n s (live code p stack)) e w

  after :
      {code : List ℕ} {pc : ℕ} (e : Expr) (g : List ℕ)
      → At code pc (compile pc e ++ g)
      → At code (pc + size e) g
  after {code} {pc} e g a =
      subst (λ n. At code (pc + n) g) (length-compile e pc) (At-append_right (compile pc e) g a)

  -- What is to be shown of an expression, at every place.
  Computes : Expr → Type 0
  Computes e =
      (code : List ℕ) (pc : ℕ) (stack : List ℕ) (v : ℕ)
      → WellFormed e
      → At code pc (compile pc e)
      → length code < 65536
      → eval t e ≡ some v
      → Within (size e) (live code pc stack) (live code (pc + size e) (v ∷ stack))

  Computes-const : (w : Width) (bs : List ℕ) → Computes (const w bs)
  unfolding Computes compile eval
  Computes-const w bs code pc stack v wf a short h =
      at_pc (pc + 1 + bytes_of w) (pc + (1 + length bs)) (omega (arith, wf.0)) (record {
        steps = 1;
        enough = omega arith;
        path =
            instruction t (const_op w) bs code pc stack
              (live code (pc + 1 + bytes_of w) (v ∷ stack)) a
              (execute_const t w bs code (pc + 1) stack wf.0 wf.1 (At-tail a)
                ∙ ap (λ x. some (tt, live code (pc + 1 + bytes_of w) (x ∷ stack))) (some_inj h));
      })

  Computes-memory : (w : Width) (e : Expr) → Computes e → Computes (memory w e)
  unfolding Computes compile eval
  Computes-memory w e ih code pc stack v wf a short h =
      let op : List ℕ = op_code (memory_op w) ∷ [] in
      let (x, he, hx) = bind_some (eval t e) (t.read_mem (bytes_of w)) h in
      at_pc (pc + size e + 1) (pc + (size e + 1)) (omega arith) (
        then_instruction (memory_op w) code (pc + size e) (x ∷ stack) [] _
          (ih code pc stack x wf (At-append_left (compile pc e) op a) short he) (after e op a)
          (execute_memory t w x v code (pc + size e + 1) stack hx))

  Computes-unary : (op : Unary) (e : Expr) → Computes e → Computes (unary op e)
  unfolding Computes compile eval
  Computes-unary op e ih code pc stack v wf a short h =
      let code_of_op : List ℕ = op_code (unary_op op) ∷ [] in
      let (x, he, hx) = bind_some (eval t e) (λ x. some (unary_value op x)) h in
      at_pc (pc + size e + 1) (pc + (size e + 1)) (omega arith) (
        then_instruction (unary_op op) code (pc + size e) (x ∷ stack) [] _
          (ih code pc stack x wf (At-append_left (compile pc e) code_of_op a) short he)
          (after e code_of_op a)
          (execute_unary t op x code (pc + size e + 1) stack
            ∙ ap (λ y. some (tt, live code (pc + size e + 1) (y ∷ stack))) (some_inj hx)))

  Computes-binary : (op : Binary) (d e : Expr) → Computes d → Computes e → Computes (binary op d e)
  unfolding Computes compile eval
  Computes-binary op d e left right code pc stack v wf a short h =
      let code_of_op : List ℕ = op_code (binary_op op) ∷ [] in
      let second = compile (pc + size d) e ++ code_of_op in
      let (x, hd, rest) = bind_some (eval t d) (λ x. eval t e >>= binary_value op x) h in
      let (y, he, hv) = bind_some (eval t e) (binary_value op x) rest in
      let a2 = after d second a in
      relax (omega arith) (
        at_pc (pc + size d + size e + 1) (pc + (size d + (size e + 1))) (omega arith) (
          then_instruction (binary_op op) code (pc + size d + size e) (y ∷ x ∷ stack) [] _
            (then-Within
              (left code pc stack x wf.0 (At-append_left (compile pc d) second a) short hd)
              (right code (pc + size d) (x ∷ stack) y wf.1
                (At-append_left (compile (pc + size d) e) code_of_op a2) short he))
            (after e code_of_op a2)
            (execute_binary t op x y v code (pc + size d + size e + 1) stack hv)))

  Computes-choose : (c d e : Expr) → Computes c → Computes d → Computes e → Computes (choose c d e)
  unfolding Computes compile eval
  Computes-choose c d e test yes_branch no_branch code pc stack v wf a short h =
      let second = pc + size c + 3 in
      let first = second + size e + 3 in
      let last = compile first d in
      let over = jump op_goto (first + size d) in
      let skip = jump op_if_goto first in
      let r2 = compile second e ++ (over ++ last) in
      let (x, hc, chosen) = bind_some (eval t c) (λ v. if v == 0 then eval t e else eval t d) h in
      let a1 = after c (skip ++ r2) a in
      let a_skip = At-append_left skip r2 a1 in
      let a2 = At-append_right skip r2 a1 in
      let a3 = after e (over ++ last) a2 in
      let a_over = At-append_left over last a3 in
      let a4 = At-append_right over last a3 in
      let fits : first + size d < 65536 = omega (
        arith,
        At-fits last a4 (rw (length-compile d first) (size_pos d)),
        length-compile d first,
      ) in
      let tested =
        then_instruction op_if_goto code (pc + size c) (x ∷ stack) (first / 256 ∷ first % 256 ∷ [])
          _ (test code pc stack x wf.0 (At-append_left (compile pc c) (skip ++ r2) a) short hc)
          a_skip
          (execute_if_goto t first x code (pc + size c + 1) stack (omega (arith, fits))
            (At-tail a_skip)) in
      elim (Bool-cases (x == 0)) [
        | inl zero_test ↦
            let went : Within (size c + 1) (live code pc stack)
                (live code (pc + size c + 1 + 2) stack) =
              rw zero_test at tested in
            let at_second = at_pc (pc + size c + 1 + 2) second (omega arith) went in
            let value : eval t e ≡ some v = rw zero_test at chosen in
            let computed = then-Within at_second (
              no_branch code second stack v wf.2
                (At-append_left (compile second e) (over ++ last) a2) short value) in
            at_pc (first + size d) (pc + (size c + (3 + (size e + (3 + size d))))) (omega arith) (
              relax (omega arith) (
                then_instruction op_goto code (second + size e) (v ∷ stack)
                  ((first + size d) / 256 ∷ (first + size d) % 256 ∷ []) _ computed a_over
                  (execute_goto t (first + size d) code (second + size e + 1) (v ∷ stack) fits
                    (At-tail a_over))))
        | inr other ↦
            let went : Within (size c + 1) (live code pc stack) (live code first stack) =
              rw other at tested in
            let value : eval t d ≡ some v = rw other at chosen in
            at_pc (first + size d) (pc + (size c + (3 + (size e + (3 + size d))))) (omega arith) (
              relax (omega arith)
                (then-Within went (yes_branch code first stack v wf.1 a4 short value)))
      ]

  computes : (e : Expr) → Computes e
  computes (const w bs) = Computes-const w bs
  computes (memory w e) = Computes-memory w e (computes e)
  computes (unary op e) = Computes-unary op e (computes e)
  computes (binary op d e) = Computes-binary op d e (computes d) (computes e)
  computes (choose c d e) = Computes-choose c d e (computes c) (computes d) (computes e)

  run-end : (k : ℕ) (s : State) → s.end ≡ true → run t k s ≡ ended s
  unfolding run
  run-end zero s e = ground arith
  run-end (suc k) s e = ground arith

  -- The whole program, with more steps than bytes.
  run_variant-program :
      (e : Expr) (v steps : ℕ)
      → WellFormed e
      → size e < 65535
      → size e < steps
      → eval t e ≡ some v
      → run_variant t steps (program e) ≡ some (some v)
  unfolding run_variant program execute Computes
  run_variant-program e v steps wf short enough h =
      let code = program e in
      let stop : List ℕ = op_code op_end ∷ [] in
      let a : At code 0 (compile 0 e ++ stop) = record {
        rest = [];
        here = sym (append-nil code);
      } in
      let small : length code < 65536 =
        omega (arith, length-append (compile 0 e) stop, length-compile e 0) in
      let final : State = record (live code (0 + size e + 1) (v ∷ [])) { end = true } in
      let w =
        then_instruction op_end code (0 + size e) (v ∷ []) [] final
          (computes e code 0 [] v wf (At-append_left (compile 0 e) stop a) small h) (after e stop a)
          refl in
      let split : w.steps + (steps - w.steps) ≡ steps = omega (arith, w.enough) in
      let ran : run t steps (new code) ≡ ended final =
        ap (λ n. run t n (new code)) (sym split)
        ∙ (w.path.run_on (steps - w.steps) ∙ run-end (steps - w.steps) final refl) in
      rw (ran, run_variant) refl

  -- gdb's interpreter computes what an expression means: if the expression has a value, its code is
  -- shorter than the limit on steps, and its constants have the bytes of their widths, then
  -- `evaluate` of the code, followed by OP_end, returns true with that value, whatever the result
  -- held before.
  pub evaluate-program :
      (e : Expr) (v before : ℕ)
      → WellFormed e
      → size e < max_steps
      → eval t e ≡ some v
      → evaluate t (bytecode_variants (program e)) before ≡ some (true, v)
  unfolding evaluate
  evaluate-program e v before wf enough h =
      rw (run_variant-program e v max_steps wf (omega arith) enough h, evaluate_variants) refl
