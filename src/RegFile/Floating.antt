-- ===== src/RegFile/Floating.antt =====
-- src/rafi-emu/cpu/FpRegFile.h and FpRegFile.cpp. `ReadFloat` and `ReadDouble` return the bits that the
-- unsigned reads return, and `WriteFloat` and `WriteDouble` store the bits of their value.
use rafi_emu.Common.{ℕ, ◌+◌, ◌*◌, ◌^◌, List, replicate, Outcome, ok, ◌>>=◌, ◌>>◌, check_range}
use rafi_emu.Word.{u32}
use rafi_emu.RvTypes.{fp_reg_count}
use rafi_emu.RegFile.{entry_at, entry_set}

pub record FpRegFile : Type 0 where
  pub entries : List ℕ

unfoldable pub new_fp : FpRegFile
new_fp = record { entries = replicate fp_reg_count 0 }

unfoldable pub read_fp32 : FpRegFile → ℕ → Outcome ℕ
read_fp32 f reg_id = do
  check_range reg_id fp_reg_count
  entry ← entry_at f.entries reg_id
  ok (u32 entry)

unfoldable pub read_fp64 : FpRegFile → ℕ → Outcome ℕ
read_fp64 f reg_id = do check_range reg_id fp_reg_count; entry_at f.entries reg_id

-- `u32.value = value; u32.invalid = 0xffffffff;`
unfoldable pub write_fp32 : FpRegFile → ℕ → ℕ → Outcome FpRegFile
write_fp32 f reg_id value = do
  check_range reg_id fp_reg_count
  entries ← entry_set f.entries reg_id (0xffff_ffff * 2 ^ 32 + u32 value)
  ok (record { entries = entries })

unfoldable pub write_fp64 : FpRegFile → ℕ → ℕ → Outcome FpRegFile
write_fp64 f reg_id value = do
  check_range reg_id fp_reg_count
  entries ← entry_set f.entries reg_id value
  ok (record { entries = entries })
