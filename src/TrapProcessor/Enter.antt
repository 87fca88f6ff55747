-- ===== src/TrapProcessor/Enter.antt =====
-- Entering a trap handler in machine mode: what is saved, and where execution goes on.
use rafi_emu.Common.{
  ℕ, ◌^◌, ◌<◌, ◌≡◌, refl, ◌∙◌, ◌≢◌, arith, Bool, true, ok, bit_and, bit_or, if◌then◌else◌,
}
use rafi_emu.BitField.{Member, get_member, get_with_mask}
use rafi_emu.BitField.Laws.{field, get_member-field, field-mod_covered}
use rafi_emu.Word.{u32}
use rafi_emu.RvTypes.{
  Xlen, xlen32, xlen64, xlen128, PrivilegeLevel, interrupt, exception, user, supervisor, reserved,
  machine, privilege_code,
}
use rafi_emu.RvCsr.Status
use rafi_emu.Csr.{Csr, read_status, write_status, set_program_counter, set_privilege_level}
use rafi_emu.Csr.Read.{read_u64}
use rafi_emu.Csr.Write.{write_u64}
use rafi_emu.Csr.StatusView.{
  IsWritable, field-read_status, field-write_status, mpp-IsWritable, mpie-IsWritable,
  mie-IsWritable,
}
use rafi_emu.TrapProcessor.{
  TrapProcessor, process_trap_enter, machine_entry_status, cause_word, handler_address, vector_base,
}
use rafi_emu.TrapProcessor.Status.{IsBeside, machine_entry_fields, machine_entry_others}

-- The registers after a machine trap, where `s` is the status that was read.
abbrev machine_entered : Csr → ℕ → ℕ → ℕ → ℕ → ℕ → Csr
machine_entered c s cause pc trap_value target =
    record (write_status (set_privilege_level c machine)
      (machine_entry_status (u32 s) (privilege_code c.privilege_level))) {
        machine_cause = cause;
        machine_exception_program_counter = pc;
        machine_trap_value = trap_value;
        program_counter = target;
      }

privilege_code-lt : (l : PrivilegeLevel) → privilege_code l < 4
privilege_code-lt user = omega arith
privilege_code-lt supervisor = omega arith
privilege_code-lt reserved = omega arith
privilege_code-lt machine = omega arith

-- The object after a trap: its event.
abbrev pub with_event : TrapProcessor → Bool → ℕ → ℕ → PrivilegeLevel → TrapProcessor
with_event p i code trap_value next = record p {
  trap_event = record {
    trap_type = if i then interrupt else exception;
    trap_cause = code;
    from = next;
    to = next;
    trap_value = trap_value;
  };
  trap_event_valid = true;
}

enter_machine_run :
    (p : TrapProcessor) (c : Csr) (i : Bool) (code trap_value pc s cause base : ℕ)
    → read_status (set_privilege_level c machine) ≡ ok s
    → cause_word p.xlen i code ≡ ok cause
    → vector_base p.xlen c.machine_trap_vector ≡ ok base
    → process_trap_enter p c i code trap_value pc machine
      ≡ ok (record {
        processor = with_event p i code trap_value machine;
        csr =
            machine_entered c s cause pc trap_value
              (handler_address i code base c.machine_trap_vector);
      })
unfolding process_trap_enter read_u64 write_u64 set_privilege_level set_program_counter write_status
enter_machine_run p c i code trap_value pc s cause base hs hc hb = cc

-- A machine trap writes six registers, and of the status, less its summary bit, the fields MPP,
-- MPIE and MIE.
pub record KeepsOthers (c d : Csr) : Type 0 where
  pub registers : d ≡ record c {
    privilege_level = d.privilege_level;
    status = d.status;
    machine_cause = d.machine_cause;
    machine_exception_program_counter = d.machine_exception_program_counter;
    machine_trap_value = d.machine_trap_value;
    program_counter = d.program_counter;
  }
  pub status_fields :
      (f : Member)
      → IsWritable f
      → IsBeside f Status.mpp
      → IsBeside f Status.mpie
      → IsBeside f Status.mie
      → field f d.status ≡ field f c.status

-- What a handler in machine mode finds: the saved program counter, cause and value, the previous
-- privilege level and interrupt enable in MPP and MPIE, interrupts off, execution at `target`, and
-- all else as it was.
pub record EntersMachine (c d : Csr) (cause pc trap_value target : ℕ) : Type 0 where
  pub same_xlen : d.xlen ≡ c.xlen
  pub at_level : d.privilege_level ≡ machine
  pub saved_pc : d.machine_exception_program_counter ≡ pc
  pub saved_cause : d.machine_cause ≡ cause
  pub saved_value : d.machine_trap_value ≡ trap_value
  pub saved_level : get_member Status.mpp d.status ≡ privilege_code c.privilege_level
  pub saved_enable : get_member Status.mpie d.status ≡ get_member Status.mie c.status
  pub masked : get_member Status.mie d.status ≡ 0
  pub goes_to : d.program_counter ≡ target
  pub rest : KeepsOthers c d

machine_entered-EntersMachine :
    (c : Csr) (s cause pc trap_value target : ℕ)
    → ((f : Member) → IsWritable f → field f (u32 s) ≡ field f c.status)
    → EntersMachine c (machine_entered c s cause pc trap_value target) cause pc trap_value target
unfolding write_status set_privilege_level
machine_entered-EntersMachine c s cause pc trap_value target h =
    let previous = privilege_code c.privilege_level in
    let v = machine_entry_status (u32 s) previous in
    let fields = machine_entry_fields (u32 s) previous (privilege_code-lt c.privilege_level) in
    record {
      same_xlen = refl;
      at_level = refl;
      saved_pc = refl;
      saved_cause = refl;
      saved_value = refl;
      saved_level =
          rw get_member-field (field-write_status c v Status.mpp mpp-IsWritable ∙ fields.0);
      saved_enable =
          rw (get_member-field Status.mpie, get_member-field Status.mie c.status)
            (field-write_status c v Status.mpie mpie-IsWritable
              ∙ fields.1
              ∙ h Status.mie mie-IsWritable);
      masked = rw get_member-field (field-write_status c v Status.mie mie-IsWritable ∙ fields.2);
      goes_to = refl;
      rest = record {
        registers = refl;
        status_fields = λ f w p q r.
            field-write_status c v f w ∙ machine_entry_others (u32 s) previous f p q r ∙ h f w;
      };
    }

abbrev pub word_base : Xlen → ℕ → ℕ
word_base xlen32 v = bit_and v 0xffff_fffc
word_base xlen64 v = bit_and v 0xffff_ffff_ffff_fffc
word_base xlen128 v = 0

abbrev pub word_cause : Xlen → Bool → ℕ → ℕ
word_cause xlen32 i code = bit_or (if i then 2 ^ 31 else 0) code
word_cause xlen64 i code = bit_or (if i then 2 ^ 63 else 0) code
word_cause xlen128 i code = 0

cause_word-returns :
    (x : Xlen) (i : Bool) (code : ℕ) → x ≢ xlen128 → cause_word x i code ≡ ok (word_cause x i code)
unfolding cause_word
cause_word-returns xlen32 i code h = refl
cause_word-returns xlen64 i code h = refl
cause_word-returns xlen128 i code h = absurd (h refl)

vector_base-returns : (x : Xlen) (v : ℕ) → x ≢ xlen128 → vector_base x v ≡ ok (word_base x v)
unfolding vector_base get_with_mask
vector_base-returns xlen32 v h = refl
vector_base-returns xlen64 v h = refl
vector_base-returns xlen128 v h = absurd (h refl)

-- On RV32 and RV64, a trap into machine mode always completes. The registers that it leaves save
-- the program counter, cause and value of the trap, and the privilege level and MIE that it
-- interrupted, with interrupts off and execution at the handler; and its event is recorded as valid.
pub process_trap_enter-machine :
    (p : TrapProcessor) (c : Csr) (i : Bool) (code trap_value pc : ℕ)
    → p.xlen ≢ xlen128
    → c.xlen ≢ xlen128
    → (d : Csr) × (process_trap_enter p c i code trap_value pc machine
        ≡ ok (record { processor = with_event p i code trap_value machine; csr = d }))
      × EntersMachine c d
          (word_cause p.xlen i code)
          pc
          trap_value
          (handler_address i code (word_base p.xlen c.machine_trap_vector) c.machine_trap_vector)
process_trap_enter-machine p c i code trap_value pc hp hc =
    let status =
      field-read_status (set_privilege_level c machine) (unfold set_privilege_level in hc) in
    (
      machine_entered c status.0 (word_cause p.xlen i code) pc trap_value _,
      enter_machine_run p c i code trap_value pc status.0 _ _ status.1
          (cause_word-returns p.xlen i code hp)
          (vector_base-returns p.xlen c.machine_trap_vector hp),
      machine_entered-EntersMachine c status.0 _ pc trap_value _ (λ f w.
          field-mod_covered 32 f status.0 w.low ∙ unfold set_privilege_level in status.2 f w),
    )
