-- ===== src/RvCsr/Ie.antt =====
-- The bits and masks of `xie_t` (mie, sie, uie) in include/rafi/common/RvCsr.h.
use rafi_emu.Common.{ℕ, bit_or}
use rafi_emu.BitField.{Member, bit, mask}

abbrev pub meie : Member
meie = bit 11

abbrev pub seie : Member
seie = bit 9

abbrev pub ueie : Member
ueie = bit 8

abbrev pub mtie : Member
mtie = bit 7

abbrev pub stie : Member
stie = bit 5

abbrev pub utie : Member
utie = bit 4

abbrev pub msie : Member
msie = bit 3

abbrev pub ssie : Member
ssie = bit 1

abbrev pub usie : Member
usie = bit 0

abbrev pub write_mask : ℕ
write_mask =
    bit_or (mask meie) (
      bit_or (mask seie) (bit_or (mask ueie) (bit_or (mask msie) (bit_or (mask ssie) (mask usie)))))

abbrev pub user_mask : ℕ
user_mask = bit_or (mask ueie) (bit_or (mask utie) (mask usie))

abbrev pub supervisor_mask : ℕ
supervisor_mask = bit_or (mask seie) (bit_or (mask stie) (bit_or (mask ssie) user_mask))

abbrev pub machine_mask : ℕ
machine_mask = bit_or (mask meie) (bit_or (mask mtie) (bit_or (mask msie) supervisor_mask))
