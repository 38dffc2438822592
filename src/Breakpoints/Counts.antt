-- ===== src/Breakpoints/Counts.antt =====
-- session/address_space.rs: the two counts of a breakpoint.
use rd.Prelude.{ℕ, ◌+◌, ◌-◌, ◌<◌, ◌^◌, ◌≡◌, some, arith, refl}
use rd.Breakpoints.{
  Breakpoint, BreakpointType, bkpt_none, bkpt_internal, bkpt_user, do_ref, do_unref, new_breakpoint,
}

-- How often each kind of breakpoint is set at an address.
pub record Count : Type 0 where
  pub internal : ℕ
  pub user : ℕ

abbrev pub kind_of : BreakpointType → Count → ℕ
kind_of bkpt_user c = c.user
kind_of _ c = c.internal

abbrev pub more : BreakpointType → Count → Count
more bkpt_user c = record c { user = c.user + 1 }
more _ c = record c { internal = c.internal + 1 }

abbrev pub fewer : BreakpointType → Count → Count
fewer bkpt_user c = record c { user = c.user - 1 }
fewer _ c = record c { internal = c.internal - 1 }

abbrev pub no_count : Count
no_count = record { internal = 0; user = 0 }

abbrev pub count_of : Breakpoint → Count
count_of bp = record { internal = bp.internal_count; user = bp.user_count }

pub do_ref_lem :
    (type : BreakpointType) (bp : Breakpoint)
    → kind_of type (count_of bp) + 1 < 2 ^ 32
    → (bp' : Breakpoint) × (do_ref type bp ≡ some bp')
      × (count_of bp' ≡ more type (count_of bp))
      × (bp'.overwritten_data ≡ bp.overwritten_data)
      × (0 < bp'.internal_count + bp'.user_count)
unfolding do_ref
do_ref_lem bkpt_user bp h =
    (record bp { user_count = bp.user_count + 1 }, ground arith, refl, refl, omega arith)
do_ref_lem bkpt_none bp h =
    (record bp { internal_count = bp.internal_count + 1 }, ground arith, refl, refl, omega arith)
do_ref_lem bkpt_internal bp h =
    (record bp { internal_count = bp.internal_count + 1 }, ground arith, refl, refl, omega arith)

pub do_unref_lem :
    (type : BreakpointType) (bp : Breakpoint)
    → 0 < kind_of type (count_of bp)
    → bp.internal_count + bp.user_count < 2 ^ 32
    → (bp' : Breakpoint) × (do_unref type bp ≡ some (bp', bp'.internal_count + bp'.user_count))
      × (count_of bp' ≡ fewer type (count_of bp))
      × (bp'.overwritten_data ≡ bp.overwritten_data)
unfolding do_unref
do_unref_lem bkpt_user bp h l =
    (record bp { user_count = bp.user_count - 1 }, ground arith, refl, refl)
do_unref_lem bkpt_none bp h l =
    (record bp { internal_count = bp.internal_count - 1 }, ground arith, refl, refl)
do_unref_lem bkpt_internal bp h l =
    (record bp { internal_count = bp.internal_count - 1 }, ground arith, refl, refl)

pub fewer_none : (type : BreakpointType) → fewer type no_count ≡ no_count
fewer_none bkpt_user = refl
fewer_none bkpt_none = refl
fewer_none bkpt_internal = refl

pub small :
    (type : BreakpointType) (old : ℕ) → kind_of type (count_of (new_breakpoint old)) + 1 < 2 ^ 32
unfolding new_breakpoint
small bkpt_user old = omega arith
small bkpt_none old = omega arith
small bkpt_internal old = omega arith
