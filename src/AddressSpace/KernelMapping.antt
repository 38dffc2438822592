-- ===== src/AddressSpace/KernelMapping.antt =====
-- session/address_space/kernel_mapping.rs: one mapping as the kernel lists it. `none` is a failed
-- assertion or an overflow.
use rd.Prelude.{
  ℕ, ◌+◌, ◌%◌, ◌^◌, Bool, false, ◌&&◌, Option, none, some, List, ltb, leb, ◌==◌, if◌then◌else◌,
  bit_and,
}
use rd.Prelude.Options.{◌>>=◌, ◌>>◌, assert}
use rd.RemotePtr.{ptr_sub}
use rd.MemoryRange.{MemoryRange, from_range, size}
use rd.Util.{page_size}
use rd.Util.Search.{find, bytes_eq, codes}

-- MAP_SHARED | MAP_PRIVATE | MAP_ANONYMOUS | MAP_GROWSDOWN | MAP_NORESERVE | MAP_STACK
abbrev pub map_flags_mask : ℕ
map_flags_mask = 0x24123

-- MAP_PRIVATE | MAP_SHARED
abbrev pub checkable_flags_mask : ℕ
checkable_flags_mask = 0x3

abbrev pub no_device : ℕ
no_device = 0

abbrev pub no_inode : ℕ
no_inode = 0

pub record KernelMapping : Type 0 where
  pub mr : MemoryRange
  pub fsname : List ℕ
  pub device : ℕ
  pub inode : ℕ
  pub prot : ℕ
  pub flags : ℕ
  pub offset : ℕ

unfoldable pub assert_valid : KernelMapping → Bool
unfolding size
assert_valid km =
    leb km.mr.start km.mr.end
    && size km.mr % page_size == 0
    && bit_and km.flags map_flags_mask == km.flags
    && km.offset % page_size == 0

unfoldable pub new_with_opts : ℕ → ℕ → List ℕ → ℕ → ℕ → ℕ → ℕ → ℕ → Option KernelMapping
unfolding from_range assert_valid
new_with_opts start end fsname device inode prot flags offset = do
  mr ← from_range start end
  let result : KernelMapping = record {
    mr = mr;
    fsname = fsname;
    device = device;
    inode = inode;
    prot = prot;
    flags = bit_and flags map_flags_mask;
    offset = offset;
  }
  assert (assert_valid result)
  some result

unfoldable pub extend : KernelMapping → ℕ → Option KernelMapping
unfolding new_with_opts
extend km end = do
  assert (leb km.mr.end end)
  new_with_opts km.mr.start end km.fsname km.device km.inode km.prot km.flags km.offset

unfoldable pub set_range : KernelMapping → ℕ → ℕ → Option KernelMapping
unfolding new_with_opts
set_range km start end =
    new_with_opts start end km.fsname km.device km.inode km.prot km.flags km.offset

unfoldable pub is_real_device : KernelMapping → Bool
is_real_device km = ltb no_device km.device

unfoldable pub subrange : KernelMapping → ℕ → ℕ → Option KernelMapping
unfolding new_with_opts is_real_device ptr_sub
subrange km start end = do
  assert (leb km.mr.start start && leb end km.mr.end)
  let start_addr : ℕ = if is_real_device km then ptr_sub start km.mr.start else 0
  assert (ltb (km.offset + start_addr) (2 ^ 64))
  new_with_opts start end km.fsname km.device km.inode km.prot km.flags (km.offset + start_addr)

unfoldable pub set_prot : KernelMapping → ℕ → Option KernelMapping
unfolding new_with_opts
set_prot km prot =
    new_with_opts km.mr.start km.mr.end km.fsname km.device km.inode prot km.flags km.offset

unfoldable pub is_vdso : KernelMapping → Bool
is_vdso km = bytes_eq km.fsname (codes "[vdso]")

unfoldable pub is_heap : KernelMapping → Bool
is_heap km = bytes_eq km.fsname (codes "[heap]")

unfoldable pub is_stack : KernelMapping → Bool
unfolding find
is_stack km = elim (find km.fsname (codes "[stack")) [ none ↦ false | some loc ↦ loc == 0 ]
