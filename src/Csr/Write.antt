-- ===== src/Csr/Write.antt =====
-- Csr.cpp: `WriteUInt32`, `WriteUInt64` and the three switches behind them. A value that is handed to
-- `SetLow32` or `SetHigh32` is narrowed to an `int32_t`.
use rafi_emu.Common.{ℕ, ltb, leb, ◌==◌, ◌&&◌, ◌||◌, if◌then◌else◌, bit_and, Outcome, ok, throws}
use rafi_emu.BitField.{set_member, set_with_mask}
use rafi_emu.Word.{u32, set_low32, set_high32}
use rafi_emu.RvTypes.{Xlen, xlen32, xlen64, xlen128, is_xlen32, is_xlen64}
use rafi_emu.RvCsr.Addr
use rafi_emu.RvCsr.Fcsr
use rafi_emu.RvCsr.Status
use rafi_emu.RvCsr.Ip
use rafi_emu.RvCsr.Ie
use rafi_emu.Csr.{
  Csr, write_status, is_user_mode_register, is_supervisor_mode_register, is_machine_mode_register,
}

-- The `default:` branch of `WriteMachineModeRegister`.
write_machine_counter : Csr → ℕ → ℕ → Outcome Csr
write_machine_counter c addr value =
    if (addr == Addr.mcycle) && is_xlen32 c.xlen
    then ok (record c { cycle_counter = set_low32 c.cycle_counter (u32 value) })
    else if (addr == Addr.mcycle) && is_xlen64 c.xlen
    then ok (record c { cycle_counter = value })
    else if (addr == Addr.minstret) && is_xlen32 c.xlen
    then ok (record c {
      instruction_retired_counter = set_low32 c.instruction_retired_counter (u32 value);
    })
    else if (addr == Addr.minstret) && is_xlen64 c.xlen
    then ok (record c { instruction_retired_counter = value })
    else if (addr == Addr.mcycleh) && is_xlen32 c.xlen
    then ok (record c { cycle_counter = set_high32 c.cycle_counter (u32 value) })
    else if (addr == Addr.minstreth) && is_xlen32 c.xlen
    then ok (record c {
      instruction_retired_counter = set_high32 c.instruction_retired_counter (u32 value);
    })
    else ok c

write_machine_mode_register : Csr → ℕ → ℕ → Outcome Csr
unfolding write_machine_counter
write_machine_mode_register c addr value =
    if leb Addr.pmpaddr_begin addr && ltb addr Addr.pmpaddr_end
    then ok c
    else if addr == Addr.mhartid || addr == Addr.misa
    then ok c
    else if addr == Addr.mstatus
    then ok (write_status c value)
    else if addr == Addr.medeleg
    then ok (record c { machine_exception_delegation = value })
    else if addr == Addr.mideleg
    then ok (record c { machine_interrupt_delegation = value })
    else if addr == Addr.mie
    then ok
        (record c { interrupt_enable = set_with_mask 64 c.interrupt_enable value Ie.machine_mask })
    else if addr == Addr.mcounteren
    then ok (record c { machine_counter_enable = value })
    else if addr == Addr.mtvec
    then ok (record c { machine_trap_vector = value })
    else if addr == Addr.mscratch
    then ok (record c { machine_scratch = value })
    else if addr == Addr.mepc
    then ok (record c { machine_exception_program_counter = value })
    else if addr == Addr.mcause
    then ok (record c { machine_cause = value })
    else if addr == Addr.mtval
    then ok (record c { machine_trap_value = value })
    else if addr == Addr.mip
    then ok (record c {
      interrupt_pending =
          set_with_mask 64 c.interrupt_pending value (bit_and Ip.machine_mask Ip.write_mask);
    })
    else if addr == Addr.pmpcfg0
        || addr == Addr.pmpcfg1
        || addr == Addr.pmpcfg2
        || addr == Addr.pmpcfg3
    then ok c
    else write_machine_counter c addr value

write_sstatus : Xlen → Csr → ℕ → Outcome Csr
write_sstatus xlen32 c value = ok (write_status c (bit_and value Status.supervisor_mask_rv32))
write_sstatus xlen64 c value = ok (write_status c (bit_and value Status.supervisor_mask_rv64))
write_sstatus xlen128 c value = throws

write_supervisor_mode_register : Csr → ℕ → ℕ → Outcome Csr
unfolding write_sstatus
write_supervisor_mode_register c addr value =
    if addr == Addr.sstatus
    then write_sstatus c.xlen c value
    else if addr == Addr.sedeleg
    then ok (record c { supervisor_exception_delegation = value })
    else if addr == Addr.sideleg
    then ok (record c { supervisor_interrupt_delegation = value })
    else if addr == Addr.sie
    then ok (record c {
      interrupt_enable = set_with_mask 64 c.interrupt_enable value Ie.supervisor_mask;
    })
    else if addr == Addr.stvec
    then ok (record c { supervisor_trap_vector = value })
    else if addr == Addr.scounteren
    then ok (record c { supervisor_counter_enable = value })
    else if addr == Addr.sscratch
    then ok (record c { supervisor_scratch = value })
    else if addr == Addr.sepc
    then ok (record c { supervisor_exception_program_counter = value })
    else if addr == Addr.scause
    then ok (record c { supervisor_cause = value })
    else if addr == Addr.stval
    then ok (record c { supervisor_trap_value = value })
    else if addr == Addr.sip
    then ok (record c {
      interrupt_pending =
          set_with_mask 64 c.interrupt_pending value (bit_and Ip.write_mask Ip.supervisor_mask);
    })
    else if addr == Addr.satp
    then ok (record c { supervisor_address_translation_protection = value })
    else ok c

-- The `default:` branch of `WriteUserModeRegister`.
write_user_counter : Csr → ℕ → ℕ → Outcome Csr
write_user_counter c addr value =
    if (addr == Addr.cycle) && is_xlen32 c.xlen
    then ok (record c { cycle_counter = set_low32 c.cycle_counter (u32 value) })
    else if (addr == Addr.cycle) && is_xlen64 c.xlen
    then ok (record c { cycle_counter = value })
    else if (addr == Addr.time) && is_xlen32 c.xlen
    then ok (record c { time_counter = set_low32 c.time_counter (u32 value) })
    else if (addr == Addr.time) && is_xlen64 c.xlen
    then ok (record c { time_counter = value })
    else if (addr == Addr.instret) && is_xlen32 c.xlen
    then ok (record c {
      instruction_retired_counter = set_low32 c.instruction_retired_counter (u32 value);
    })
    else if (addr == Addr.instret) && is_xlen64 c.xlen
    then ok (record c { instruction_retired_counter = value })
    else if (addr == Addr.cycleh) && is_xlen32 c.xlen
    then ok (record c { cycle_counter = set_high32 c.cycle_counter (u32 value) })
    else if (addr == Addr.timeh) && is_xlen32 c.xlen
    then ok (record c { cycle_counter = set_high32 c.cycle_counter (u32 value) })
    else if (addr == Addr.instreth) && is_xlen32 c.xlen
    then ok (record c {
      instruction_retired_counter = set_high32 c.instruction_retired_counter (u32 value);
    })
    else ok c

write_user_mode_register : Csr → ℕ → ℕ → Outcome Csr
unfolding write_user_counter
write_user_mode_register c addr value =
    if addr == Addr.ustatus
    then ok (write_status c (bit_and value Status.user_mask))
    else if addr == Addr.fflags
    then ok (record c { fp_csr = set_member 32 Fcsr.ae c.fp_csr (u32 value) })
    else if addr == Addr.frm
    then ok (record c { fp_csr = set_member 32 Fcsr.rm c.fp_csr (u32 value) })
    else if addr == Addr.fcsr
    then ok (record c { fp_csr = set_with_mask 32 c.fp_csr (u32 value) Fcsr.user_mask })
    else if addr == Addr.uie
    then ok (record c { interrupt_enable = set_with_mask 64 c.interrupt_enable value Ie.user_mask })
    else if addr == Addr.utvec
    then ok (record c { user_trap_vector = value })
    else if addr == Addr.uscratch
    then ok (record c { user_scratch = value })
    else if addr == Addr.uepc
    then ok (record c { user_exception_program_counter = value })
    else if addr == Addr.ucause
    then ok (record c { user_cause = value })
    else if addr == Addr.utval
    then ok (record c { user_trap_value = value })
    else if addr == Addr.uip
    then ok (record c {
      interrupt_pending =
          set_with_mask 64 c.interrupt_pending value (bit_and Ip.write_mask Ip.user_mask);
    })
    else write_user_counter c addr value

unfoldable pub write_u64 : Csr → ℕ → ℕ → Outcome Csr
unfolding write_machine_mode_register write_supervisor_mode_register write_user_mode_register
    is_machine_mode_register is_supervisor_mode_register is_user_mode_register
write_u64 c addr value =
    if is_machine_mode_register addr
    then write_machine_mode_register c addr value
    else if is_supervisor_mode_register addr
    then write_supervisor_mode_register c addr value
    else if is_user_mode_register addr
    then write_user_mode_register c addr value
    else ok c

-- `WriteUInt32(addr, value)`, for a value below `2 ^ 32`.
unfoldable pub write_u32 : Csr → ℕ → ℕ → Outcome Csr
unfolding write_u64
write_u32 c addr value = write_u64 c addr (u32 value)
