-- ===== src/Cerberus/Watch.antt =====
-- CerberusTick and CerberusAnalyzeFault of mm/security/Cerberus.c.
use void_frame.Prelude.{
  ℕ, ◌%◌, Bool, true, false, not, ◌&&◌, ◌||◌, map, ltb, leb, ◌==◌, if◌then◌else◌,
}
use void_frame.Prelude.Words.{add64, test_bit}
use void_frame.Cerberus.State.{
  ProcessInfo, CerberusState, log_violation, violation_threshold, check_interval,
}

abbrev pub is_excessive : ProcessInfo → Bool
is_excessive p =
    p.is_monitored && (ltb violation_threshold p.violation_count && not p.is_compromised)

abbrev pub escalate : ProcessInfo → ProcessInfo
escalate p = if is_excessive p then record p { is_compromised = true } else p

unfoldable pub tick : CerberusState → CerberusState
tick s =
    let ticks = add64 s.system_ticks 1 in
    if not s.is_initialized
    then s
    else if ticks % check_interval == 0
    then record s { system_ticks = ticks; process_info = map escalate s.process_info }
    else record s { system_ticks = ticks }

pub data MemorySecurityViolation : Type 0 where
  no_violation : MemorySecurityViolation
  buffer_overflow : MemorySecurityViolation
  stack_corruption : MemorySecurityViolation
  use_after_free : MemorySecurityViolation
  double_free : MemorySecurityViolation
  bounds_check : MemorySecurityViolation
  canary_corrupt : MemorySecurityViolation
  heap_corrupt : MemorySecurityViolation

abbrev pub kernel_space : ℕ
kernel_space = 0xFFFF800000000000

unfoldable pub classify : ℕ → ℕ → MemorySecurityViolation
classify fault_addr error_code =
    if fault_addr == 0 || ltb fault_addr 0x1000
    then use_after_free
    else if test_bit error_code 1 && not (test_bit error_code 0)
    then buffer_overflow
    else if test_bit error_code 4
    then stack_corruption
    else if leb kernel_space fault_addr
    then bounds_check
    else no_violation

unfoldable pub is_violation : MemorySecurityViolation → Bool
is_violation no_violation = false
is_violation other = true

-- Whether a violation was detected, and the state.
unfoldable pub analyze_fault : CerberusState → ℕ → ℕ → ℕ → Bool × CerberusState
unfolding classify is_violation log_violation
analyze_fault s fault_addr error_code pid =
    if not s.is_initialized
    then (false, s)
    else if is_violation (classify fault_addr error_code)
    then (true, log_violation s pid)
    else (false, s)
