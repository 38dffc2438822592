-- ===== src/Breakpoints/Table.antt =====
-- session/address_space.rs: the table of breakpoints as a function from addresses.
use rd.Prelude.{ℕ, ◌≡◌, none, some, [], ◌∷◌, ◌==◌, if◌then◌else◌, arith, refl}
use rd.Breakpoints.{Breakpoint, BreakpointMap, get, insert, remove}

-- No address twice.
abbrev pub Distinct : BreakpointMap → Type 0
Distinct [] = Unit
Distinct ((k, bp) ∷ bps) = (get k bps ≡ none) × Distinct bps

pub get-insert :
    (addr a : ℕ) (bp : Breakpoint) (bps : BreakpointMap)
    → get a (insert addr bp bps) ≡ (if addr == a then some bp else get a bps)
unfolding get insert
get-insert addr a bp [] = refl
get-insert addr a bp ((k, old) ∷ bps) = ground (arith, get-insert addr a bp bps)

pub insert-Distinct :
    (addr : ℕ) (bp : Breakpoint) (bps : BreakpointMap)
    → Distinct bps
    → Distinct (insert addr bp bps)
unfolding insert get
insert-Distinct addr bp [] d = (refl, tt)
insert-Distinct addr bp ((k, old) ∷ bps) d =
    ground (arith, get-insert addr k bp bps, insert-Distinct addr bp bps d.1)

pub get-remove :
    (addr a : ℕ) (bps : BreakpointMap)
    → Distinct bps
    → get a (remove addr bps) ≡ (if addr == a then none else get a bps)
unfolding get remove
get-remove addr a [] d = ground arith
get-remove addr a ((k, bp) ∷ bps) d = ground (arith, get-remove addr a bps d.1, d.0)

pub remove-Distinct : (addr : ℕ) (bps : BreakpointMap) → Distinct bps → Distinct (remove addr bps)
unfolding remove get
remove-Distinct addr [] d = tt
remove-Distinct addr ((k, bp) ∷ bps) d =
    ground (arith, get-remove addr k bps, remove-Distinct addr bps d.1)

-- What was written last is removed with the rest.
pub remove-insert :
    (addr : ℕ) (old bp : Breakpoint) (bps : BreakpointMap)
    → get addr bps ≡ some old
    → remove addr (insert addr bp bps) ≡ remove addr bps
unfolding get insert remove
remove-insert addr old bp [] h = absurd (cc)
remove-insert addr old bp ((k, x) ∷ bps) h = ground (arith, remove-insert addr old bp bps)
