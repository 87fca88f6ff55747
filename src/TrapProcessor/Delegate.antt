-- ===== src/TrapProcessor/Delegate.antt =====
-- To which privilege level a trap goes: the delegation registers, and traps into supervisor mode.
use rafi_emu.Common.{
  ℕ, ◌%◌, ◌^◌, ◌≡◌, refl, sym, ◌∙◌, ◌≢◌, arith, Bool, true, false, is_set, ok, bit_and,
}
use rafi_emu.BitField.{Member, get_member, get_with_mask}
use rafi_emu.BitField.Laws.{
  field, Covers, get_member-field, field-mod_covered, field-bit_and_covered,
}
use rafi_emu.Word.{u32}
use rafi_emu.RvTypes.{xlen64, xlen128, supervisor, machine, privilege_code, exception_code}
use rafi_emu.RvCsr.Status
use rafi_emu.Trap.{Trap}
use rafi_emu.Csr.{Csr, read_status, write_status, set_program_counter, set_privilege_level}
use rafi_emu.Csr.Read.{read_u64}
use rafi_emu.Csr.Write.{write_u64}
use rafi_emu.Csr.StatusView.{
  IsWritable, field-read_status, field-write_status, field-write_status_masked, spp-IsWritable,
  spie-IsWritable, sie-IsWritable, mie-IsWritable, mpp-IsWritable, mpie-IsWritable,
}
use rafi_emu.TrapProcessor.{
  TrapProcessor, Done, process_trap_enter, process_exception, delegated_level,
  supervisor_entry_status, handler_address, cause_word, vector_base,
}
use rafi_emu.TrapProcessor.Status.{supervisor_entry_fields}
use rafi_emu.TrapProcessor.Enter.{
  EntersMachine, process_trap_enter-machine, with_event, word_base, word_cause,
}

xlen64≢xlen128 : xlen64 ≢ xlen128
xlen64≢xlen128 h = cc

process_exception-delegated_level :
    (p : TrapProcessor) (c : Csr) (t : Trap)
    → process_exception p c t
      ≡ process_trap_enter p c false (exception_code t.type) t.trap_value t.pc (
          delegated_level c.machine_exception_delegation c.supervisor_exception_delegation
            (exception_code t.type))
unfolding process_exception read_u64
process_exception-delegated_level p c t = refl

abbrev pub is_delegated : ℕ → Trap → Bool
is_delegated deleg t = is_set (bit_and deleg (2 ^ exception_code t.type))

-- The registers and the object after an exception that medeleg does not delegate.
pub process_exception-machine_run :
    (p : TrapProcessor) (c : Csr) (t : Trap)
    → p.xlen ≢ xlen128
    → c.xlen ≢ xlen128
    → is_delegated c.machine_exception_delegation t ≡ false
    → (d : Csr) × (process_exception p c t
        ≡ ok (record {
          processor = with_event p false (exception_code t.type) t.trap_value machine;
          csr = d;
        }))
      × EntersMachine c d
          (word_cause p.xlen false (exception_code t.type))
          t.pc
          t.trap_value
          (word_base p.xlen c.machine_trap_vector)
unfolding delegated_level handler_address
process_exception-machine_run p c t hp hc h =
    let (d, run, e) =
      process_trap_enter-machine p c false (exception_code t.type) t.trap_value t.pc hp hc in
    (d, rw (process_exception-delegated_level p c t, h, delegated_level) run, e)

-- On RV32 and RV64, an exception whose bit in medeleg is clear is taken in machine mode, at the
-- handler of mtvec and never at a vectored address, with its own code, value and program counter.
pub process_exception-machine :
    (p : TrapProcessor) (c : Csr) (t : Trap)
    → p.xlen ≢ xlen128
    → c.xlen ≢ xlen128
    → is_delegated c.machine_exception_delegation t ≡ false
    → (r : Done) × (process_exception p c t ≡ ok r)
      × EntersMachine c r.csr
          (word_cause p.xlen false (exception_code t.type))
          t.pc
          t.trap_value
          (word_base p.xlen c.machine_trap_vector)
process_exception-machine p c t hp hc h =
    let (d, run, e) = process_exception-machine_run p c t hp hc h in (_, run, e)

-- What a handler in supervisor mode finds.
pub record EntersSupervisor (c d : Csr) (cause pc trap_value target : ℕ) : Type 0 where
  pub at_level : d.privilege_level ≡ supervisor
  pub saved_pc : d.supervisor_exception_program_counter ≡ pc
  pub saved_cause : d.supervisor_cause ≡ cause
  pub saved_value : d.supervisor_trap_value ≡ trap_value
  pub saved_level : get_member Status.spp d.status ≡ privilege_code c.privilege_level % 2
  pub saved_enable : get_member Status.spie d.status ≡ get_member Status.sie c.status
  pub masked : get_member Status.sie d.status ≡ 0
  pub goes_to : d.program_counter ≡ target
  pub machine_status_lost :
      (get_member Status.mpp d.status ≡ 0)
      × (get_member Status.mpie d.status ≡ 0)
      × (get_member Status.mie d.status ≡ 0)

abbrev supervisor_status : Csr → ℕ → ℕ
supervisor_status c s =
    supervisor_entry_status (u32 (bit_and s Status.supervisor_mask_rv64))
      (privilege_code c.privilege_level)

abbrev supervisor_entered : Csr → ℕ → ℕ → ℕ → ℕ → ℕ → Csr
supervisor_entered c s cause pc trap_value target =
    record (write_status (set_privilege_level c supervisor)
      (bit_and (supervisor_status c s) Status.supervisor_mask_rv64)) {
        supervisor_cause = cause;
        supervisor_exception_program_counter = pc;
        supervisor_trap_value = trap_value;
        program_counter = target;
      }

enter_supervisor_run :
    (p : TrapProcessor) (c : Csr) (i : Bool) (code trap_value pc s : ℕ)
    → p.xlen ≡ xlen64
    → c.xlen ≡ xlen64
    → read_status (set_privilege_level c supervisor) ≡ ok s
    → process_trap_enter p c i code trap_value pc supervisor
      ≡ ok (record {
        processor = with_event p i code trap_value supervisor;
        csr = supervisor_entered c s (word_cause xlen64 i code) pc trap_value (
            handler_address i code
              (word_base xlen64 c.supervisor_trap_vector)
              c.supervisor_trap_vector);
      })
unfolding process_trap_enter read_u64 write_u64 set_privilege_level set_program_counter write_status
    get_with_mask cause_word vector_base
enter_supervisor_run p c i code trap_value pc s hp hc hs = ground arith

-- A field that sstatus shows keeps its bits through the two masks of the write.
shown_status_field :
    (c : Csr) (v : ℕ) (f : Member)
    → IsWritable f
    → Covers f Status.supervisor_mask_rv64
    → field f (write_status c (bit_and v Status.supervisor_mask_rv64)).status ≡ field f v
shown_status_field c v f w m =
    field-write_status c _ f w ∙ field-bit_and_covered f v Status.supervisor_mask_rv64 m

supervisor_entered-EntersSupervisor :
    (c : Csr) (s cause pc trap_value target : ℕ)
    → field Status.sie s ≡ field Status.sie c.status
    → EntersSupervisor c
        (supervisor_entered c s cause pc trap_value target)
        cause
        pc
        trap_value
        target
unfolding write_status set_privilege_level
supervisor_entered-EntersSupervisor c s cause pc trap_value target h =
    let m = Status.supervisor_mask_rv64 in
    let v = supervisor_status c s in
    let fields = supervisor_entry_fields (u32 (bit_and s m)) (privilege_code c.privilege_level) in
    record {
      at_level = refl;
      saved_pc = refl;
      saved_cause = refl;
      saved_value = refl;
      saved_level =
          rw get_member-field (shown_status_field c v Status.spp spp-IsWritable refl ∙ fields.0);
      saved_enable =
          rw (get_member-field Status.spie, get_member-field Status.sie c.status)
            (shown_status_field c v Status.spie spie-IsWritable refl
              ∙ fields.1
              ∙ field-mod_covered 32 Status.sie (bit_and s m) refl
              ∙ field-bit_and_covered Status.sie s m refl
              ∙ h);
      masked =
          rw get_member-field (shown_status_field c v Status.sie sie-IsWritable refl ∙ fields.2);
      goes_to = refl;
      machine_status_lost = (
        rw get_member-field (field-write_status_masked c v m Status.mpp mpp-IsWritable refl),
        rw get_member-field (field-write_status_masked c v m Status.mpie mpie-IsWritable refl),
        rw get_member-field (field-write_status_masked c v m Status.mie mie-IsWritable refl),
      );
    }

-- On RV64, an exception that medeleg delegates and sedeleg does not is taken in supervisor mode,
-- whatever the privilege level that it interrupts, machine mode included. SPP holds the low bit of
-- that level, SPIE the interrupted SIE, and SIE is off. The write of sstatus also clears MPP, MPIE
-- and MIE.
pub process_exception-supervisor :
    (p : TrapProcessor) (c : Csr) (t : Trap)
    → p.xlen ≡ xlen64
    → c.xlen ≡ xlen64
    → is_delegated c.machine_exception_delegation t ≡ true
    → is_delegated c.supervisor_exception_delegation t ≡ false
    → (r : Done) × (process_exception p c t ≡ ok r)
      × EntersSupervisor c r.csr
          (word_cause xlen64 false (exception_code t.type))
          t.pc
          t.trap_value
          (word_base xlen64 c.supervisor_trap_vector)
unfolding delegated_level handler_address
process_exception-supervisor p c t hp hc h k =
    let code = exception_code t.type in
    let status =
      field-read_status (set_privilege_level c supervisor)
        (unfold set_privilege_level in λ x. xlen64≢xlen128 (sym hc ∙ x)) in
    let run = enter_supervisor_run p c false code t.trap_value t.pc status.0 hp hc status.1 in
    (
      record {
        processor = with_event p false code t.trap_value supervisor;
        csr = supervisor_entered c status.0 (word_cause xlen64 false code) t.pc t.trap_value _;
      },
      rw (process_exception-delegated_level p c t, h, k, delegated_level) run,
      supervisor_entered-EntersSupervisor c status.0 _ t.pc t.trap_value _
          (unfold set_privilege_level in status.2 Status.sie sie-IsWritable),
    )
