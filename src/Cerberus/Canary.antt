-- ===== src/Cerberus/Canary.antt =====
-- The canaries of mm/security/Cerberus.c, with the registration that installs them and the check
-- before a process is scheduled. The memory is what these functions see of it: the page tables, as
-- VMemGetPhysAddr answers, and words that may be written or not.
use void_frame.Prelude.{ℕ, Bool, true, false, not, ◌&&◌, ◌||◌, ltb, leb, ◌==◌, if◌then◌else◌}
use void_frame.Prelude.Words.{add32, sub64, stored}
use void_frame.Cerberus.State.{
  Status, failed, done, violated, ProcessInfo, CerberusState, info_at, put_info, log_violation,
  max_processes,
}

pub record Memory : Type 0 where
  pub phys_addr : ℕ → ℕ
  pub word : ℕ → ℕ
  pub writable : ℕ → Bool

abbrev pub write_word : Memory → ℕ → ℕ → Memory
write_word m a v = record m {
  word = λ b. if m.writable a then stored a v b (m.word b) else m.word b;
}

abbrev pub stack_canary_value : ℕ
stack_canary_value = 0xDEADBEEFCAFEBABE

abbrev pub test_value : ℕ
test_value = 0x1234567890ABCDEF

abbrev pub canary_slot : ℕ → ℕ
canary_slot stack_top = sub64 stack_top 0x100

unfoldable pub install_stack_canary :
    CerberusState → Memory → ℕ → ℕ → ℕ → Status × CerberusState × Memory
install_stack_canary s m pid stack_top stack_size =
    let canary_addr = canary_slot stack_top in
    let tested = write_word m canary_addr test_value in
    let info = record (info_at s pid) { stack_canary_addr = canary_addr } in
    if not s.is_initialized || (leb max_processes pid || ltb stack_size 0x2000)
    then (failed, s, m)
    else if m.phys_addr canary_addr == 0
    then (failed, s, m)
    else if not (tested.word canary_addr == test_value)
    then (failed, s, tested)
    else (done, put_info s pid info, write_word tested canary_addr stack_canary_value)

abbrev pub fresh_info : ℕ → ProcessInfo → ProcessInfo
fresh_info pid p = record p {
  process_id = pid;
  is_monitored = true;
  is_compromised = false;
  violation_count = 0;
  last_violation = 0;
}

-- `protection` is the build option VF_CONFIG_CERBERUS_STACK_PROTECTION.
unfoldable pub register_process :
    Bool → CerberusState → Memory → ℕ → ℕ → ℕ → Status × CerberusState × Memory
unfolding install_stack_canary
register_process protection s m pid stack_base stack_size =
    let opened = put_info s pid (fresh_info pid (info_at s pid)) in
    let guarded = install_stack_canary opened m pid stack_base stack_size in
    let made : CerberusState × Memory =
      if protection && (not (stack_base == 0) && ltb 16 stack_size)
      then (guarded.1, guarded.2)
      else (opened, m) in
    if not s.is_initialized || leb max_processes pid
    then (failed, s, m)
    else if (info_at s pid).is_monitored
    then (done, s, m)
    else (
      done,
      record (made.0) { monitored_processes = add32 (made.0).monitored_processes 1 },
      made.1,
    )

unfoldable pub check_stack_canary : CerberusState → Memory → ℕ → Status × CerberusState
unfolding log_violation
check_stack_canary s m pid =
    let p = info_at s pid in
    let logged = log_violation s pid in
    if not s.is_initialized || leb max_processes pid
    then (failed, s)
    else if not p.is_monitored || p.stack_canary_addr == 0
    then (done, s)
    else if m.phys_addr p.stack_canary_addr == 0
    then (failed, s)
    else if m.word p.stack_canary_addr == stack_canary_value
    then (done, s)
    else (violated, put_info logged pid (record (info_at logged pid) { is_compromised = true }))

unfoldable pub pre_schedule_check : CerberusState → Memory → ℕ → CerberusState
unfolding check_stack_canary
pre_schedule_check s m pid =
    let p = info_at s pid in
    if not s.is_initialized || (not p.is_monitored || p.is_compromised)
    then s
    else (check_stack_canary s m pid).1
