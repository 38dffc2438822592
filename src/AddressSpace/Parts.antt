-- ===== src/AddressSpace/Parts.antt =====
-- session/address_space/kernel_mapping.rs: what the parts, the extension and the copy with another
-- protection of a mapping are, where no assertion fails.
use rd.Prelude.{ℕ, ◌+◌, ◌-◌, ◌^◌, ◌≤◌, ◌<◌, ◌≡◌, some, if◌then◌else◌, bit_and, arith, if-both, List}
use rd.Prelude.Digits.{bit_and-absorb}
use rd.Util.{IsPage}
use rd.AddressSpace.KernelMapping.{
  KernelMapping, map_flags_mask, new_with_opts, extend, set_range, is_real_device, subrange,
  set_prot,
}

-- A mapping of whole pages, with the flags that are tracked, whose last byte has an offset in the
-- file.
pub record IsMapping (km : KernelMapping) : Type 0 where
  pub order : km.mr.start < km.mr.end
  pub start_page : IsPage km.mr.start
  pub bound : km.mr.end < 2 ^ 64
  pub end_page : IsPage km.mr.end
  pub masked : bit_and km.flags map_flags_mask ≡ km.flags
  pub offset_page : IsPage km.offset
  pub fits : km.offset + (if is_real_device km then km.mr.end - km.mr.start else 0) < 2 ^ 64

pub new_with_opts_lem :
    (start end : ℕ) (fsname : List ℕ) (device inode prot flags offset : ℕ)
    → start ≤ end
    → end < 2 ^ 64
    → IsPage start
    → IsPage end
    → IsPage offset
    → new_with_opts start end fsname device inode prot flags offset
      ≡ some (record {
        mr = record { start = start; end = end };
        fsname = fsname;
        device = device;
        inode = inode;
        prot = prot;
        flags = bit_and flags map_flags_mask;
        offset = offset;
      })
unfolding new_with_opts
new_with_opts_lem start end fsname device inode prot flags offset h b p q r =
    ground (arith, bit_and-absorb flags map_flags_mask)

-- Where in the file the part begins.
abbrev pub part_offset : KernelMapping → ℕ → ℕ
unfolding is_real_device
part_offset km start = km.offset + (if is_real_device km then start - km.mr.start else 0)

abbrev pub part : KernelMapping → ℕ → ℕ → KernelMapping
part km start end = record km {
  mr = record { start = start; end = end };
  offset = part_offset km start;
}

module _ (km : KernelMapping) (v : IsMapping km) where
  pub subrange_lem :
      (start end : ℕ)
      → km.mr.start ≤ start
      → start ≤ end
      → end ≤ km.mr.end
      → IsPage start
      → IsPage end
      → subrange km start end ≡ some (part km start end)
  unfolding subrange
  subrange_lem start end h k l p q = ground (
    arith,
    new_with_opts_lem start end km.fsname km.device km.inode km.prot km.flags
        (part_offset km start),
  )

  pub set_prot_lem : (prot : ℕ) → set_prot km prot ≡ some (record km { prot = prot })
  unfolding set_prot
  set_prot_lem prot = ground (
    arith,
    new_with_opts_lem km.mr.start km.mr.end km.fsname km.device km.inode prot km.flags km.offset,
  )

  pub extend_lem :
      (end : ℕ)
      → km.mr.end ≤ end
      → end < 2 ^ 64
      → IsPage end
      → extend km end ≡ some (record km { mr = record { start = km.mr.start; end = end } })
  unfolding extend
  extend_lem end h b p = ground (
    arith,
    new_with_opts_lem km.mr.start end km.fsname km.device km.inode km.prot km.flags km.offset,
  )

  pub set_range_lem :
      (start end : ℕ)
      → start ≤ end
      → end < 2 ^ 64
      → IsPage start
      → IsPage end
      → set_range km start end ≡ some (record km { mr = record { start = start; end = end } })
  unfolding set_range
  set_range_lem start end h b p q =
      ground
        (arith, new_with_opts_lem start end km.fsname km.device km.inode km.prot km.flags km.offset)

  pub part-IsMapping :
      (start end : ℕ)
      → km.mr.start ≤ start
      → start < end
      → end ≤ km.mr.end
      → IsPage start
      → IsPage end
      → IsMapping (part km start end)
  unfolding part_offset is_real_device
  part-IsMapping start end h k l p q = record {
    order = k;
    start_page = p;
    end_page = q;
    bound = omega (arith, v.bound);
    masked = v.masked;
    offset_page =
        if-both (λ (t : ℕ). IsPage (km.offset + t)) (is_real_device km) (start - km.mr.start) 0
          (λ _. omega arith) (λ _. omega arith);
    fits = ground arith;
  }
