-- ===== src/Eevdf/Seal.antt =====
-- The scheduler's integrated security of kernel/sched/EEVDF.c: keys, seals and their verification. A
-- uint64_t that is hashed is a list of 64 bits, and its bytes are in the machine's order.
use void_frame.Prelude.{
  ℕ, zero, suc, Bool, false, not, List, [], ◌∷◌, ◌++◌, leb, ◌==◌, if◌then◌else◌, get_or, set,
}
use void_frame.Prelude.Words.{add64}
use void_frame.Crypto.Bits.{Bits, xor_bits, bits_of, zeros, first_bits, drop_bits, same_bits}
use void_frame.Crypto.Crc.{crc32}
use void_frame.Eevdf.Tree.{eevdf_max_processes}
use void_frame.Eevdf.State.{
  ProcessControlBlock, SecurityToken, Scheduler, block_at, put_block, state_code,
}

abbrev pub sis_magic : ℕ
sis_magic = 0x5EC0DE4D41474943

abbrev pub sis_salt_base : ℕ
sis_salt_base = 0xDEADBEEFCAFEBABE

abbrev pub sis_max_violations : ℕ
sis_max_violations = 3

unfoldable pub split_bytes : ℕ → Bits → List Bits
unfolding first_bits drop_bits
split_bytes zero w = []
split_bytes (suc n) w = first_bits 8 w ∷ split_bytes n (drop_bits 8 w)

unfoldable pub sis_fast_hash : Bits → Bits → Bits
unfolding split_bytes crc32
sis_fast_hash a b = crc32 (split_bytes 8 a ++ split_bytes 8 b) ++ zeros 32

unfoldable pub generate_process_key : Scheduler → ℕ → ℕ → Scheduler
unfolding sis_fast_hash bits_of xor_bits
generate_process_key s slot pid =
    let nonce = add64 s.sis_global_nonce 1 in
    let salted = xor_bits (bits_of 64 sis_salt_base) (bits_of 64 nonce) in
    let key = sis_fast_hash salted (bits_of 32 slot ++ bits_of 32 pid) in
    record s { sis_global_nonce = nonce; sis_process_keys = set s.sis_process_keys slot key }

-- pid << 32 | privilege_level << 16 | state
unfoldable pub critical_bits : ProcessControlBlock → Bits
unfolding bits_of
critical_bits pcb =
    bits_of 16 (state_code pcb.state) ++ bits_of 16 pcb.privilege_level ++ bits_of 32 pcb.pid

unfoldable pub seal_pcb : Scheduler → ProcessControlBlock → ℕ → Bits
unfolding sis_fast_hash critical_bits
seal_pcb s pcb slot = sis_fast_hash (critical_bits pcb) (get_or s.sis_process_keys slot [])

unfoldable pub verify_pcb : Scheduler → ProcessControlBlock → ℕ → Bool
unfolding seal_pcb same_bits
verify_pcb s pcb slot =
    let valid = same_bits pcb.sis_seal (seal_pcb s pcb slot) in
    if leb eevdf_max_processes slot then false else valid

unfoldable pub update_seal : Scheduler → ℕ → Scheduler
unfolding seal_pcb
update_seal s slot =
    put_block s slot (record (block_at s slot) { sis_seal = seal_pcb s (block_at s slot) slot })

unfoldable pub token_checksum : SecurityToken → Bits
unfolding sis_fast_hash bits_of
token_checksum token = sis_fast_hash (bits_of 64 token.magic) (bits_of 64 token.capabilities)

unfoldable pub validate_process : Scheduler → ℕ → Bool
unfolding verify_pcb
validate_process s slot =
    let pcb = block_at s slot in
    if leb eevdf_max_processes slot
    then false
    else if not (pcb.token.magic == sis_magic)
    then false
    else verify_pcb s pcb slot
