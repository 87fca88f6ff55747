-- ===== src/Tests/Registers.antt =====
-- The theorems on the register files, at concrete inputs.
use rafi_emu.Common.{ℕ, ◌≡◌, ◌≢◌, refl, inr, arith, length, ok, ◌%◌, ◌^◌}
use rafi_emu.BitField.{width, get_member, set_member}
use rafi_emu.BitField.Members.{IsWithin, get_member-set_member, get_member-set_member_apart}
use rafi_emu.RvCsr.Status as StatusField
use rafi_emu.RegFile.Integer.{IntRegFile, new_int, read_int32, read_int64, write_int32, write_int64}
use rafi_emu.RegFile.Floating.{FpRegFile, new_fp, read_fp32, read_fp64, write_fp32}
use rafi_emu.RegFile.Laws.{
  IsRegFile, read_int64-write_int64, read_int32-write_int32, read_fp32-write_fp32,
}

new_int-IsRegFile : IsRegFile new_int
unfolding new_int
new_int-IsRegFile = record { size = refl; x0 = refl }

new_int-zero : read_int64 new_int 5 ≡ ok 0
unfolding new_int read_int64
new_int-zero = refl

new_fp-length : length new_fp.entries ≡ 32
unfolding new_fp
new_fp-length = refl

read_int64-write_int64_example :
    (g : IntRegFile) × (write_int64 new_int 5 0xdead_beef_0000_0001 ≡ ok g)
    × IsRegFile g
    × (read_int64 g 5 ≡ ok 0xdead_beef_0000_0001)
    × ((j : ℕ) → 5 ≢ j → read_int64 g j ≡ read_int64 new_int j)
read_int64-write_int64_example =
    read_int64-write_int64 new_int 5 0xdead_beef_0000_0001 new_int-IsRegFile (omega arith)
      (omega arith)

read_int32-write_int32_example :
    (g : IntRegFile) × (write_int32 new_int 5 0x8000_0001 ≡ ok g)
    × (read_int32 g 5 ≡ ok 0x8000_0001)
    × (read_int64 g 5 ≡ ok 0x8000_0001)
read_int32-write_int32_example =
    read_int32-write_int32 new_int 5 0 0x8000_0001 new_int-IsRegFile (omega arith) (omega arith)
      new_int-zero (omega arith)

read_fp32-write_fp32_example :
    (g : FpRegFile) × (write_fp32 new_fp 31 0x3f80_0000 ≡ ok g)
    × (length g.entries ≡ 32)
    × (read_fp32 g 31 ≡ ok 0x3f80_0000)
    × (read_fp64 g 31 ≡ ok 0xffff_ffff_3f80_0000)
read_fp32-write_fp32_example =
    read_fp32-write_fp32 new_fp 31 0x3f80_0000 new_fp-length (omega arith) (omega arith)

mpp-IsWithin : IsWithin 64 StatusField.mpp
mpp-IsWithin = record { ordered = omega arith; inside = omega arith }

get_member-set_member_example :
    get_member StatusField.mpp (set_member 64 StatusField.mpp 0xffff 5)
    ≡ 5 % 2 ^ width StatusField.mpp
get_member-set_member_example = get_member-set_member 64 StatusField.mpp 0xffff 5 mpp-IsWithin

mie-IsWithin : IsWithin 64 StatusField.mie
mie-IsWithin = record { ordered = omega arith; inside = omega arith }

get_member-set_member_apart_example :
    get_member StatusField.mie (set_member 64 StatusField.mpp 0xffff 5)
    ≡ get_member StatusField.mie 0xffff
get_member-set_member_apart_example =
    get_member-set_member_apart 64 StatusField.mie StatusField.mpp 0xffff 5 mie-IsWithin
      mpp-IsWithin (inr (omega arith))
