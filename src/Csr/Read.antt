-- ===== src/Csr/Read.antt =====
-- Csr.cpp: `ReadUInt32`, `ReadUInt64` and the three switches behind them. A counter half is an
-- `int32_t` that is converted to 64 bits with its sign.
use rafi_emu.Common.{ℕ, ltb, leb, ◌==◌, ◌&&◌, ◌||◌, if◌then◌else◌, Outcome, ok, throws, ◌>>=◌}
use rafi_emu.BitField.{get_member, get_with_mask}
use rafi_emu.Word.{u32, sext32, get_low32, get_high32}
use rafi_emu.RvTypes.{Xlen, xlen32, xlen64, xlen128, is_xlen32, is_xlen64}
use rafi_emu.RvCsr.Addr
use rafi_emu.RvCsr.Fcsr
use rafi_emu.RvCsr.Status
use rafi_emu.RvCsr.Ip
use rafi_emu.RvCsr.Ie
use rafi_emu.Csr.{
  Csr, read_status, is_user_mode_register, is_supervisor_mode_register, is_machine_mode_register,
}

-- The `default:` branch of `ReadMachineModeRegister`.
read_machine_counter : Csr → ℕ → Outcome ℕ
read_machine_counter c addr =
    if (addr == Addr.mcycle) && is_xlen32 c.xlen
    then ok (sext32 (get_low32 c.cycle_counter))
    else if (addr == Addr.mcycle) && is_xlen64 c.xlen
    then ok c.cycle_counter
    else if (addr == Addr.minstret) && is_xlen32 c.xlen
    then ok (sext32 (get_low32 c.instruction_retired_counter))
    else if (addr == Addr.minstret) && is_xlen64 c.xlen
    then ok c.instruction_retired_counter
    else if (addr == Addr.mcycleh) && is_xlen32 c.xlen
    then ok (sext32 (get_high32 c.cycle_counter))
    else if (addr == Addr.minstreth) && is_xlen32 c.xlen
    then ok (sext32 (get_high32 c.instruction_retired_counter))
    else ok 0

read_machine_mode_register : Csr → ℕ → Outcome ℕ
unfolding read_machine_counter
read_machine_mode_register c addr =
    if leb Addr.pmpaddr_begin addr && ltb addr Addr.pmpaddr_end
    then ok 0
    else if addr == Addr.mstatus
    then read_status c
    else if addr == Addr.misa
    then ok c.isa
    else if addr == Addr.medeleg
    then ok c.machine_exception_delegation
    else if addr == Addr.mideleg
    then ok c.machine_interrupt_delegation
    else if addr == Addr.mie
    then ok (get_with_mask c.interrupt_enable Ie.machine_mask)
    else if addr == Addr.mtvec
    then ok c.machine_trap_vector
    else if addr == Addr.mcounteren
    then ok c.machine_counter_enable
    else if addr == Addr.mscratch
    then ok c.machine_scratch
    else if addr == Addr.mepc
    then ok c.machine_exception_program_counter
    else if addr == Addr.mcause
    then ok c.machine_cause
    else if addr == Addr.mtval
    then ok c.machine_trap_value
    else if addr == Addr.mip
    then ok (get_with_mask c.interrupt_pending Ip.machine_mask)
    else if addr == Addr.pmpcfg0
        || addr == Addr.pmpcfg1
        || addr == Addr.pmpcfg2
        || addr == Addr.pmpcfg3
    then ok 0
    else if addr == Addr.mvendorid
    then ok 0
    else if addr == Addr.marchid
    then ok 0
    else if addr == Addr.mimpid
    then ok 0
    else if addr == Addr.mhartid
    then ok 0
    else read_machine_counter c addr

read_sstatus : Xlen → Csr → Outcome ℕ
read_sstatus xlen32 c = do s ← read_status c; ok (get_with_mask s Status.supervisor_mask_rv32)
read_sstatus xlen64 c = do s ← read_status c; ok (get_with_mask s Status.supervisor_mask_rv64)
read_sstatus xlen128 c = throws

read_supervisor_mode_register : Csr → ℕ → Outcome ℕ
unfolding read_sstatus
read_supervisor_mode_register c addr =
    if addr == Addr.sstatus
    then read_sstatus c.xlen c
    else if addr == Addr.sedeleg
    then ok c.supervisor_exception_delegation
    else if addr == Addr.sideleg
    then ok c.supervisor_interrupt_delegation
    else if addr == Addr.sie
    then ok (get_with_mask c.interrupt_enable Ie.supervisor_mask)
    else if addr == Addr.stvec
    then ok c.supervisor_trap_vector
    else if addr == Addr.scounteren
    then ok c.supervisor_counter_enable
    else if addr == Addr.sscratch
    then ok c.supervisor_scratch
    else if addr == Addr.sepc
    then ok c.supervisor_exception_program_counter
    else if addr == Addr.scause
    then ok c.supervisor_cause
    else if addr == Addr.stval
    then ok c.supervisor_trap_value
    else if addr == Addr.sip
    then ok (get_with_mask c.interrupt_pending Ip.supervisor_mask)
    else if addr == Addr.satp
    then ok c.supervisor_address_translation_protection
    else ok 0

read_ustatus : Csr → Outcome ℕ
read_ustatus c = do s ← read_status c; ok (get_with_mask s Status.user_mask)

-- The `default:` branch of `ReadUserModeRegister`.
read_user_counter : Csr → ℕ → Outcome ℕ
read_user_counter c addr =
    if (addr == Addr.cycle) && is_xlen32 c.xlen
    then ok (sext32 (get_low32 c.cycle_counter))
    else if (addr == Addr.cycle) && is_xlen64 c.xlen
    then ok c.cycle_counter
    else if (addr == Addr.time) && is_xlen32 c.xlen
    then ok (sext32 (get_low32 c.cycle_counter))
    else if (addr == Addr.time) && is_xlen64 c.xlen
    then ok c.time_counter
    else if (addr == Addr.instret) && is_xlen32 c.xlen
    then ok (sext32 (get_low32 c.instruction_retired_counter))
    else if (addr == Addr.instret) && is_xlen64 c.xlen
    then ok c.instruction_retired_counter
    else if (addr == Addr.cycleh) && is_xlen32 c.xlen
    then ok (sext32 (get_high32 c.cycle_counter))
    else if (addr == Addr.timeh) && is_xlen32 c.xlen
    then ok (sext32 (get_high32 c.time_counter))
    else if (addr == Addr.instreth) && is_xlen32 c.xlen
    then ok (sext32 (get_high32 c.instruction_retired_counter))
    else ok 0

read_user_mode_register : Csr → ℕ → Outcome ℕ
unfolding read_ustatus read_user_counter
read_user_mode_register c addr =
    if addr == Addr.ustatus
    then read_ustatus c
    else if addr == Addr.fflags
    then ok (get_member Fcsr.ae c.fp_csr)
    else if addr == Addr.frm
    then ok (get_member Fcsr.rm c.fp_csr)
    else if addr == Addr.fcsr
    then ok (get_with_mask c.fp_csr Fcsr.user_mask)
    else if addr == Addr.uie
    then ok (get_with_mask c.interrupt_enable Ie.user_mask)
    else if addr == Addr.utvec
    then ok c.user_trap_vector
    else if addr == Addr.uscratch
    then ok c.user_scratch
    else if addr == Addr.uepc
    then ok c.user_exception_program_counter
    else if addr == Addr.ucause
    then ok c.user_cause
    else if addr == Addr.utval
    then ok c.user_trap_value
    else if addr == Addr.uip
    then ok (get_with_mask c.interrupt_pending Ip.user_mask)
    else read_user_counter c addr

unfoldable pub read_u64 : Csr → ℕ → Outcome ℕ
unfolding read_machine_mode_register read_supervisor_mode_register read_user_mode_register
    is_machine_mode_register is_supervisor_mode_register is_user_mode_register
read_u64 c addr =
    if is_machine_mode_register addr
    then read_machine_mode_register c addr
    else if is_supervisor_mode_register addr
    then read_supervisor_mode_register c addr
    else if is_user_mode_register addr
    then read_user_mode_register c addr
    else ok 0

unfoldable pub read_u32 : Csr → ℕ → Outcome ℕ
unfolding read_u64
read_u32 c addr = do v ← read_u64 c addr; ok (u32 v)
