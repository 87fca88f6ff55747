-- ===== src/TrapProcessor/Return.antt =====
-- Leaving a trap handler in machine mode, and the round trip through a machine trap.
use rafi_emu.Common.{ℕ, ◌≡◌, refl, sym, ap, ◌∙◌, ◌≢◌, Bool, true, ok}
use rafi_emu.BitField.{get_member}
use rafi_emu.BitField.Laws.{field, get_member-field, field-mod_covered}
use rafi_emu.Word.{u32}
use rafi_emu.RvTypes.{
  xlen128, PrivilegeLevel, return, user, supervisor, reserved, machine, privilege_code,
  privilege_level_of,
}
use rafi_emu.RvCsr.Status
use rafi_emu.Csr.{Csr, read_status, write_status, set_program_counter, set_privilege_level}
use rafi_emu.Csr.Read.{read_u64}
use rafi_emu.Csr.Write.{write_u64}
use rafi_emu.Csr.StatusView.{
  field-read_status, field-write_status, mpp-IsWritable, mpie-IsWritable, mie-IsWritable,
}
use rafi_emu.TrapProcessor.{
  TrapProcessor, Done, process_trap_enter, process_trap_return, machine_return_status,
}
use rafi_emu.TrapProcessor.Status.{machine_return_fields}
use rafi_emu.TrapProcessor.Enter.{process_trap_enter-machine, with_event}

-- The event of a return: its cause and value are those of the event before it.
abbrev pub return_event : TrapProcessor → PrivilegeLevel → PrivilegeLevel → TrapProcessor
return_event p from to = record p {
  trap_event = record {
    trap_type = return;
    trap_cause = p.trap_event.trap_cause;
    from = from;
    to = to;
    trap_value = p.trap_event.trap_value;
  };
  trap_event_valid = true;
}

-- What is left behind: execution at the saved program counter and level, MIE from MPIE, MPP clear.
pub record LeavesMachine (c d : Csr) : Type 0 where
  pub resumes : d.program_counter ≡ c.machine_exception_program_counter
  pub at_level : d.privilege_level ≡ privilege_level_of (get_member Status.mpp c.status)
  pub restored : get_member Status.mie d.status ≡ get_member Status.mpie c.status
  pub cleared : get_member Status.mpp d.status ≡ 0

abbrev machine_left : Csr → ℕ → Csr
machine_left c s = record (write_status c (machine_return_status (u32 s))) {
  program_counter = c.machine_exception_program_counter;
  privilege_level = privilege_level_of (get_member Status.mpp (u32 s));
}

return_machine_run :
    (p : TrapProcessor) (c : Csr) (s : ℕ)
    → read_status c ≡ ok s
    → process_trap_return p c machine
      ≡ ok (record {
        processor =
            return_event p c.privilege_level (privilege_level_of (get_member Status.mpp (u32 s)));
        csr = machine_left c s;
      })
unfolding process_trap_return read_u64 write_u64 set_privilege_level set_program_counter
    write_status
return_machine_run p c s h = cc

machine_left-LeavesMachine :
    (c : Csr) (s : ℕ)
    → field Status.mpp (u32 s) ≡ field Status.mpp c.status
    → field Status.mpie (u32 s) ≡ field Status.mpie c.status
    → LeavesMachine c (machine_left c s)
unfolding write_status
machine_left-LeavesMachine c s h k =
    let fields = machine_return_fields (u32 s) in
    record {
      resumes = refl;
      at_level =
          ap privilege_level_of
            (get_member-field Status.mpp (u32 s) ∙ h ∙ sym (get_member-field Status.mpp c.status));
      restored =
          rw (get_member-field Status.mie, get_member-field Status.mpie c.status)
            (field-write_status c _ Status.mie mie-IsWritable ∙ fields.1 ∙ k);
      cleared = rw get_member-field (field-write_status c _ Status.mpp mpp-IsWritable ∙ fields.0);
    }

-- On RV32 and RV64, a return from machine mode always completes, and leaves the registers as the
-- saved state says.
pub process_trap_return-machine :
    (p : TrapProcessor) (c : Csr)
    → c.xlen ≢ xlen128
    → (q : TrapProcessor) × (d : Csr) × (process_trap_return p c machine
        ≡ ok (record { processor = q; csr = d }))
      × LeavesMachine c d
process_trap_return-machine p c h =
    let status = field-read_status c h in
    (
      _,
      machine_left c status.0,
      return_machine_run p c status.0 status.1,
      machine_left-LeavesMachine c status.0
          (field-mod_covered 32 Status.mpp status.0 refl ∙ status.2 Status.mpp mpp-IsWritable)
          (field-mod_covered 32 Status.mpie status.0 refl ∙ status.2 Status.mpie mpie-IsWritable),
    )

pub privilege_level_of-privilege_code :
    (l : PrivilegeLevel) → privilege_level_of (privilege_code l) ≡ l
unfolding privilege_level_of
privilege_level_of-privilege_code user = refl
privilege_level_of-privilege_code supervisor = refl
privilege_level_of-privilege_code reserved = refl
privilege_level_of-privilege_code machine = refl

-- A machine trap followed by MRET resumes the interrupted program: both steps complete, and the
-- program counter, the privilege level and MIE are again those at which the trap was taken.
pub trap_and_return :
    (p : TrapProcessor) (c : Csr) (i : Bool) (code trap_value pc : ℕ)
    → p.xlen ≢ xlen128
    → c.xlen ≢ xlen128
    → (a b : Done) × (process_trap_enter p c i code trap_value pc machine ≡ ok a)
      × (process_trap_return a.processor a.csr machine ≡ ok b)
      × (b.csr.program_counter ≡ pc)
      × (b.csr.privilege_level ≡ c.privilege_level)
      × (get_member Status.mie b.csr.status ≡ get_member Status.mie c.status)
trap_and_return p c i code trap_value pc hp hc =
    let (d, entered, e) = process_trap_enter-machine p c i code trap_value pc hp hc in
    let q = with_event p i code trap_value machine in
    let (r, f, left, l) = process_trap_return-machine q d (λ x. hc (sym e.same_xlen ∙ x)) in
    (
      record { processor = q; csr = d },
      record { processor = r; csr = f },
      entered,
      left,
      l.resumes ∙ e.saved_pc,
      l.at_level
          ∙ ap privilege_level_of e.saved_level
          ∙ privilege_level_of-privilege_code c.privilege_level,
      l.restored ∙ e.saved_enable,
    )
