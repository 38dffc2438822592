-- ===== src/TaskishUid.antt =====
-- taskish_uid.rs: the identities of tasks, thread groups and address spaces. A tid is a pid_t that is
-- not negative.
use rd.Prelude.{ℕ, ◌==◌, Bool, true, ◌&&◌, Ordering, compare, lt, eq, gt, ◌≡◌, ◌↔◌, arith}

pub record TaskishUid : Type 0 where
  pub tid : ℕ
  pub serial : ℕ

pub record AddressSpaceUid : Type 0 where
  pub taskish : TaskishUid
  pub exec_count : ℕ

-- PartialEq::eq
unfoldable pub same_uid : TaskishUid → TaskishUid → Bool
same_uid a b = (a.tid == b.tid) && (a.serial == b.serial)

-- Ord::cmp
unfoldable pub cmp : TaskishUid → TaskishUid → Ordering
cmp a b = elim (compare a.tid b.tid) [ lt ↦ lt | eq ↦ compare a.serial b.serial | gt ↦ gt ]

-- The derived order: the fields one after the other.
unfoldable pub cmp_address_space : AddressSpaceUid → AddressSpaceUid → Ordering
cmp_address_space a b = elim (cmp a.taskish b.taskish) [
  | lt ↦ lt
  | eq ↦ compare a.exec_count b.exec_count
  | gt ↦ gt
]

unfoldable pub new_with : ℕ → ℕ → TaskishUid
new_with tid serial = record { tid = tid; serial = serial }

-- The order of the identities of address spaces is total and strict: cmp is equal exactly if the
-- identities of the tasks are equal by `eq` and the exec counts are equal, it is less on a and b
-- exactly if it is greater on b and a, and less is transitive.
pub cmp_address_space_order :
    (a b c : AddressSpaceUid)
    → ((cmp_address_space a b ≡ eq)
        ↔ ((same_uid a.taskish b.taskish ≡ true) × (a.exec_count ≡ b.exec_count)))
      × ((cmp_address_space a b ≡ lt) ↔ (cmp_address_space b a ≡ gt))
      × (cmp_address_space a b ≡ lt → cmp_address_space b c ≡ lt → cmp_address_space a c ≡ lt)
unfolding cmp_address_space cmp same_uid
cmp_address_space_order a b c = (ground arith, ground arith, λ h k. ground arith)
