-- ===== src/Tests/Cpu.antt =====
-- The theorems on the registers, traps and interrupts, at concrete inputs.
use rafi_emu.Common.{◌+◌, ◌*◌, ◌/◌, ◌≤◌, ◌^◌, ◌≡◌, ◌≢◌, refl, arith, true, false, none, some, ok}
use rafi_emu.BitField.{Member, get_member}
use rafi_emu.BitField.Laws.{field, Covers, Misses}
use rafi_emu.RvTypes.{xlen64, xlen128, user, machine, machine_timer, exception_code}
use rafi_emu.RvCsr.Addr
use rafi_emu.RvCsr.Status as StatusField
use rafi_emu.RvCsr.Ip
use rafi_emu.Csr.{Csr, address_mode}
use rafi_emu.Csr.Write.{write_u64}
use rafi_emu.Csr.Check.{check_trap, access_forbidden, check_time, check_counter}
use rafi_emu.Csr.Privilege.{check_trap-none}
use rafi_emu.Csr.StatusView.{IsWritable, write_sstatus-status}
use rafi_emu.TrapProcessor.{
  process_interrupt, TrapProcessor, Done, process_trap_enter, process_trap_return,
  process_exception, handler_address,
}
use rafi_emu.TrapProcessor.Interrupt.{process_interrupt-machine}
use rafi_emu.RvCsr.Tvec
use rafi_emu.Word.{u64}
use rafi_emu.TrapProcessor.Enter.{
  EntersMachine, with_event, word_base, word_cause, process_trap_enter-machine,
}
use rafi_emu.TrapProcessor.Return.{LeavesMachine, process_trap_return-machine, trap_and_return}
use rafi_emu.TrapProcessor.Delegate.{
  EntersSupervisor, process_exception-machine, process_exception-supervisor,
}
use rafi_emu.InterruptController.Request.{Requests, is_enabled, update-Requests}
use rafi_emu.InterruptController.{Updated, update, update_csr, find_interrupt}
use rafi_emu.InterruptController.Pending.{update_csr-idle, update_csr-timer}
use rafi_emu.Tests.Inputs.{
  user_registers, machine_registers, delegating_registers, processor, page_fault, timer_only,
  external_only,
}

xlen64≢xlen128 : xlen64 ≢ xlen128
xlen64≢xlen128 e = cc

trap_and_return_example :
    (a b : Done) × (process_trap_enter processor user_registers true 7 0 0x1000 machine ≡ ok a)
    × (process_trap_return a.processor a.csr machine ≡ ok b)
    × (b.csr.program_counter ≡ 0x1000)
    × (b.csr.privilege_level ≡ user)
    × (get_member StatusField.mie b.csr.status ≡ get_member StatusField.mie user_registers.status)
trap_and_return_example =
    trap_and_return processor user_registers true 7 0 0x1000 xlen64≢xlen128 xlen64≢xlen128

process_trap_enter-machine_example :
    (d : Csr) × (process_trap_enter processor user_registers true 7 0 0x1000 machine
      ≡ ok (record { processor = with_event processor true 7 0 machine; csr = d }))
    × EntersMachine user_registers d
        (word_cause xlen64 true 7)
        0x1000
        0
        (handler_address true 7 (word_base xlen64 0x8000_0101) 0x8000_0101)
process_trap_enter-machine_example =
    process_trap_enter-machine processor user_registers true 7 0 0x1000 xlen64≢xlen128
      xlen64≢xlen128

process_trap_return-machine_example :
    (q : TrapProcessor) × (d : Csr) × (process_trap_return processor machine_registers machine
      ≡ ok (record { processor = q; csr = d }))
    × LeavesMachine machine_registers d
process_trap_return-machine_example =
    process_trap_return-machine processor machine_registers xlen64≢xlen128

process_exception-machine_example :
    (r : Done) × (process_exception processor user_registers page_fault ≡ ok r)
    × EntersMachine user_registers r.csr
        (word_cause xlen64 false (exception_code page_fault.type))
        0x1000
        0x5000
        (word_base xlen64 0x8000_0101)
process_exception-machine_example =
    process_exception-machine processor user_registers page_fault xlen64≢xlen128 xlen64≢xlen128 refl

process_exception-supervisor_example :
    (r : Done) × (process_exception processor delegating_registers page_fault ≡ ok r)
    × EntersSupervisor delegating_registers r.csr
        (word_cause xlen64 false (exception_code page_fault.type))
        0x1000
        0x5000
        (word_base xlen64 0x8000_0200)
process_exception-supervisor_example =
    process_exception-supervisor processor delegating_registers page_fault refl refl refl refl

-- MEIE, MTIE and MSIE are set, MTIP and SSIP are pending.
timer_found : find_interrupt 0x888 0x82 ≡ some machine_timer
unfolding find_interrupt get_member
timer_found = refl

update_csr-idle_example :
    (d : Csr) × (update_csr external_only user_registers ≡ ok d)
    × (get_member Ip.mtip d.interrupt_pending ≡ 0)
    × (get_member Ip.meip d.interrupt_pending ≡ 0)
update_csr-idle_example = update_csr-idle external_only user_registers refl

update_csr-timer_example :
    (d : Csr) × (update_csr timer_only user_registers ≡ ok d)
    × (get_member Ip.mtip d.interrupt_pending ≡ 1)
    × (get_member Ip.meip d.interrupt_pending ≡ 1)
update_csr-timer_example = update_csr-timer timer_only user_registers refl (omega arith)

write_sstatus-status_example :
    (d : Csr) × (write_u64 machine_registers Addr.sstatus 0x122 ≡ ok d)
    × ((f : Member)
        → IsWritable f
        → Covers f StatusField.supervisor_mask_rv64
        → field f d.status ≡ field f 0x122)
    × ((f : Member)
        → IsWritable f
        → Misses f StatusField.supervisor_mask_rv64
        → field f d.status ≡ 0)
write_sstatus-status_example = write_sstatus-status machine_registers 0x122 refl

scratch_allowed : check_trap machine_registers Addr.mscratch true 0 0 ≡ ok none
unfolding check_trap access_forbidden check_time check_counter get_member
scratch_allowed = refl

check_trap-none_example :
    (address_mode Addr.mscratch ≤ 3)
    × ((Addr.mscratch / 2 ^ 10 ≡ 3) → true ≡ false)
    × (Addr.mscratch ≢ Addr.time)
check_trap-none_example =
    check_trap-none machine_registers Addr.mscratch true 0 0 (λ e. cc) scratch_allowed

update-Requests_example :
    (r : Updated) × (update timer_only
        (record { is_requested = false; interrupt_type = machine_timer })
        machine_registers
      ≡ ok r)
    × Requests
        (is_enabled machine_registers)
        machine_registers.interrupt_enable
        r.csr.interrupt_pending
        r.controller
update-Requests_example =
    update-Requests timer_only (record { is_requested = false; interrupt_type = machine_timer })
      machine_registers xlen64≢xlen128 (λ e. cc)

process_interrupt-machine_example :
    (r : Done) × (process_interrupt processor user_registers machine_timer 0x1000 ≡ ok r)
    × EntersMachine user_registers r.csr (word_cause xlen64 true 7) 0x1000 0 r.csr.program_counter
    × (get_member Tvec.mode 0x8000_0101 ≡ 1
        → r.csr.program_counter ≡ u64 (word_base xlen64 0x8000_0101 + 4 * 7))
    × (get_member Tvec.mode 0x8000_0101 ≢ 1 → r.csr.program_counter ≡ word_base xlen64 0x8000_0101)
process_interrupt-machine_example =
    process_interrupt-machine processor user_registers machine_timer 0x1000 xlen64≢xlen128
      xlen64≢xlen128 refl
