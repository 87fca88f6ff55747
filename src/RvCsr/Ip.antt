-- ===== src/RvCsr/Ip.antt =====
-- The bits and masks of `xip_t` (mip, sip, uip) in include/rafi/common/RvCsr.h.
use rafi_emu.Common.{ℕ, bit_or}
use rafi_emu.BitField.{Member, bit, mask}

abbrev pub meip : Member
meip = bit 11

abbrev pub seip : Member
seip = bit 9

abbrev pub ueip : Member
ueip = bit 8

abbrev pub mtip : Member
mtip = bit 7

abbrev pub stip : Member
stip = bit 5

abbrev pub utip : Member
utip = bit 4

abbrev pub msip : Member
msip = bit 3

abbrev pub ssip : Member
ssip = bit 1

abbrev pub usip : Member
usip = bit 0

abbrev pub write_mask : ℕ
write_mask =
    bit_or (mask meip) (
      bit_or (mask seip) (bit_or (mask ueip) (bit_or (mask msip) (bit_or (mask ssip) (mask usip)))))

abbrev pub user_mask : ℕ
user_mask = bit_or (mask ueip) (bit_or (mask utip) (mask usip))

abbrev pub supervisor_mask : ℕ
supervisor_mask = bit_or (mask seip) (bit_or (mask stip) (bit_or (mask ssip) user_mask))

abbrev pub machine_mask : ℕ
machine_mask = bit_or (mask meip) (bit_or (mask mtip) (bit_or (mask msip) supervisor_mask))
