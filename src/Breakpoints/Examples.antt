-- ===== src/Breakpoints/Examples.antt =====
-- session/address_space.rs: breakpoints in a memory of one page of zeros.
use rd.Prelude.{
  ℕ, zero, suc, ◌+◌, ◌<◌, ◌≡◌, true, Option, none, some, List, [], ◌∷◌, ltb, ◌==◌, if◌then◌else◌,
  arith, refl, inl, inr, get_elem?, sym, ◌∙◌, ap, Option-cases,
}
use rd.Breakpoints.{
  bkpt_internal, bkpt_user, get, Tracee, Space, replace_breakpoints_with_original_values,
}
use rd.Breakpoints.Counts.{Count, no_count}
use rd.Breakpoints.Represents.{Represents}
use rd.Breakpoints.Sequence.{
  Call, add, drop, run, counts_after, Legal, run-Represents, replace-Represents,
}

abbrev write_byte : (ℕ → Option ℕ) → ℕ → ℕ → Option (ℕ → Option ℕ)
write_byte m a v = elim (m a) [ none ↦ none | some _ ↦ some (λ b. if a == b then some v else m b) ]

byte_at : ℕ → Option (ℕ → Option ℕ) → Option ℕ
byte_at b none = none
byte_at b (some m) = m b

write_byte-some :
    (m : ℕ → Option ℕ) (a v old : ℕ)
    → m a ≡ some old
    → write_byte m a v ≡ some (λ b. if a == b then some v else m b)
write_byte-some m a v old h = rw (write_byte, h) refl

write_byte-none : (m : ℕ → Option ℕ) (a v : ℕ) → m a ≡ none → write_byte m a v ≡ none
write_byte-none m a v h = rw (write_byte, h) refl

read-write_byte :
    (m m' : ℕ → Option ℕ) (a v b : ℕ)
    → write_byte m a v ≡ some m'
    → m' b ≡ (if a == b then some v else m b)
unfolding byte_at
read-write_byte m m' a v b h = elim (Option-cases (m a)) [
  | inl missing ↦ absurd (let fails = write_byte-none m a v missing in ground arith)
  | inr (old, found) ↦ ap (byte_at b) (sym h ∙ write_byte-some m a v old found)
]

-- Memory as a function, with a write where there is a byte.
abbrev plain : Tracee
plain = record {
  Memory = ℕ → Option ℕ;
  read = λ m a. m a;
  write = write_byte;
  write_total =
      λ m a v {old} h. ((λ b. if a == b then some v else m b), write_byte-some m a v old h);
  read-write = read-write_byte;
}

abbrev zeros : ℕ → Option ℕ
zeros a = if ltb a 4096 then some 0 else none

abbrev start : Space plain
start = record { has_task = true; breakpoints = []; memory = zeros }

start-Represents : Represents plain zeros (λ a. no_count) start
unfolding get
start-Represents = record {
  has_task = refl;
  distinct = tt;
  absent = λ a h. (refl, refl);
  present = λ a bp h. absurd (cc);
}

-- Two breakpoints at one address, of which one goes, and one that cannot be read.
abbrev calls : List Call
calls = add 16 bkpt_user ∷ add 16 bkpt_internal ∷ add 5000 bkpt_user ∷ drop 16 bkpt_user ∷ []

abbrev none_set : ℕ → Count
none_set a = no_count

calls-Legal : Legal plain zeros calls none_set
calls-Legal = (omega arith, (omega arith, (omega arith, (inr (omega arith), omega arith, tt))))

run-Represents_example :
    (s' : Space plain) × (run plain calls start ≡ some s')
    × Represents plain zeros (counts_after plain zeros calls none_set) s'
run-Represents_example =
    run-Represents plain zeros calls none_set start start-Represents calls-Legal

-- A breakpoint of the user at the address 16.
abbrev trapped : Space plain
trapped = record {
  has_task = true;
  breakpoints = (16, record { internal_count = 0; user_count = 1; overwritten_data = 0 }) ∷ [];
  memory = λ a. if 16 == a then some 0xcc else zeros a;
}

abbrev one_set : ℕ → Count
one_set a = if 16 == a then record { internal = 0; user = 1 } else no_count

trapped-Represents : Represents plain zeros one_set trapped
unfolding get
trapped-Represents = record {
  has_task = refl;
  distinct = (refl, tt);
  absent = λ a h. ground arith;
  present = λ a bp h. ground arith;
}

was_read :
    (i : ℕ)
    → i < 4
    → get_elem? (0 ∷ 0 ∷ 0xcc ∷ 0 ∷ []) i ≡ (if 16 == 14 + i then some 0xcc else zeros (14 + i))
was_read zero h = refl
was_read (suc zero) h = refl
was_read (suc (suc zero)) h = refl
was_read (suc (suc (suc zero))) h = refl
was_read (suc (suc (suc (suc i)))) h = absurd (omega arith)

replace-Represents_example :
    get_elem?
      (replace_breakpoints_with_original_values trapped.breakpoints 14 (0 ∷ 0 ∷ 0xcc ∷ 0 ∷ []))
      2
    ≡ zeros (14 + 2)
replace-Represents_example =
    replace-Represents plain zeros one_set trapped trapped-Represents 14 (0 ∷ 0 ∷ 0xcc ∷ 0 ∷ [])
      (omega arith, tt) (omega arith) was_read 2 (omega arith)
