-- ===== src/RegFile/Integer.antt =====
-- src/rafi-emu/cpu/IntRegFile.h and IntRegFile.cpp. `ReadInt32` and `ReadInt64` return the bits that the
-- unsigned reads return, and the signed writes store the bits of their value.
use rafi_emu.Common.{ℕ, ◌==◌, List, replicate, if◌then◌else◌, Outcome, ok, ◌>>=◌, ◌>>◌, check_range}
use rafi_emu.Word.{u32}
use rafi_emu.RvTypes.{int_reg_count}
use rafi_emu.RegFile.{entry_at, entry_set, with_low}

pub record IntRegFile : Type 0 where
  pub entries : List ℕ

unfoldable pub new_int : IntRegFile
new_int = record { entries = replicate int_reg_count 0 }

unfoldable pub read_int32 : IntRegFile → ℕ → Outcome ℕ
read_int32 f reg_id = do
  check_range reg_id int_reg_count
  entry ← entry_at f.entries reg_id
  ok (u32 entry)

unfoldable pub read_int64 : IntRegFile → ℕ → Outcome ℕ
read_int64 f reg_id = do check_range reg_id int_reg_count; entry_at f.entries reg_id

-- A write to the register 0 is dropped.
unfoldable pub write_int32 : IntRegFile → ℕ → ℕ → Outcome IntRegFile
write_int32 f reg_id value = do
  check_range reg_id int_reg_count
  if reg_id == 0 then ok f else (do
    entry ← entry_at f.entries reg_id
    entries ← entry_set f.entries reg_id (with_low entry value)
    ok (record { entries = entries }))

unfoldable pub write_int64 : IntRegFile → ℕ → ℕ → Outcome IntRegFile
write_int64 f reg_id value = do
  check_range reg_id int_reg_count
  if reg_id == 0
      then ok f
      else (do entries ← entry_set f.entries reg_id value; ok (record { entries = entries }))
