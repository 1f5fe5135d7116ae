-- ===== src/Isa/Names.antt =====
-- The names that isa.rs gives to registers, native functions and opcodes.
use Prim.Native.String.{String}
use latency_os.Prelude.{ℕ, none, some, List, [], ◌∷◌, get_or}
use latency_os.Isa.Codes.{Opcode, Native, decode_opcode, decode_native}

abbrev register_names : List String
register_names =
    "$rax" ∷ "$rcx" ∷ "$rdx" ∷ "$rbx" ∷ "$rsp" ∷ "$rbp" ∷ "$rsi" ∷ "$rdi" ∷ "$r8" ∷ "$r9" ∷ "$r10"
    ∷ "$r11" ∷ "$r12" ∷ "$r13" ∷ "$r14" ∷ "$r15" ∷ "#f0" ∷ "#f1" ∷ "#f2" ∷ "#f3" ∷ []

unfoldable pub px64_reg_name : ℕ → String
px64_reg_name r = get_or register_names r "$unk"

unfoldable pub native_name : Native → String
native_name Native.print = "@print"
native_name Native.println = "@println"
native_name Native.sys_tsc = "@tsc"
native_name Native.net_rtt = "@rtt"
native_name Native.net_set_rate = "@rate"
native_name Native.gpu_capture = "@capture"
native_name Native.net_send = "@send"
native_name Native.script_argc = "@argc"
native_name Native.script_arg = "@arg"
native_name Native.tag_ok = "@ok"
native_name Native.tag_err = "@err"
native_name Native.is_ok = "@is_ok"
native_name Native.is_err = "@is_err"
native_name Native.unwrap = "@unwrap"
native_name Native.str_eq_call = "@streq"
native_name Native.core_id = "@core_id"
native_name Native.tsc_freq = "@tsc_freq"
native_name Native.uptime_ns = "@uptime_ns"
native_name Native.busy_wait = "@busy_wait"
native_name Native.ring_depth = "@ring_depth"
native_name Native.math_min = "@min"
native_name Native.math_max = "@max"
native_name Native.math_abs = "@abs"
native_name Native.math_clamp = "@clamp"
native_name Native.bit_popcnt = "@popcnt"
native_name Native.bit_lzcnt = "@lzcnt"
native_name Native.crc32 = "@crc32"
native_name Native.vram_read = "@vram_read"
native_name Native.vram_write = "@vram_write"
native_name Native.fix_to_fix = "@to_fix"
native_name Native.fix_to_i64 = "@to_i64"
native_name Native.fix_mul = "@fix_mul"
native_name Native.fix_div = "@fix_div"
native_name Native.release_frame = "@release"
native_name Native.term_raw = "@term_raw"
native_name Native.term_read_key = "@term_read_key"
native_name Native.term_size = "@term_size"
native_name Native.file_read = "@file_read"
native_name Native.file_write = "@file_write"
native_name Native.file_exists = "@file_exists"
native_name Native.str_len = "@str_len"
native_name Native.char_at = "@char_at"

unfoldable pub px64_native_name : ℕ → String
px64_native_name b = elim (decode_native b) [ none ↦ "@native" | some f ↦ native_name f ]

unfoldable pub op_name : Opcode → String
op_name Opcode.nop = "NOP"
op_name Opcode.mov_imm = "MOV"
op_name Opcode.mov_reg = "MOV"
op_name Opcode.mov_str = "MOVS"
op_name Opcode.add = "ADD"
op_name Opcode.sub = "SUB"
op_name Opcode.mul = "MUL"
op_name Opcode.div = "DIV"
op_name Opcode.mod_op = "MOD"
op_name Opcode.cmp_eq = "CMPEQ"
op_name Opcode.cmp_ne = "CMPNE"
op_name Opcode.cmp_lt = "CMPLT"
op_name Opcode.cmp_le = "CMPLE"
op_name Opcode.cmp_gt = "CMPGT"
op_name Opcode.cmp_ge = "CMPGE"
op_name Opcode.jmp = "JMP"
op_name Opcode.jz = "JZ"
op_name Opcode.jnz = "JNZ"
op_name Opcode.call_nat = "CALL_NAT"
op_name Opcode.within_start = "WITHIN_START"
op_name Opcode.within_end = "WITHIN_END"
op_name Opcode.drop = "DROP"
op_name Opcode.halt = "HALT"
op_name Opcode.ldc = "LDC"
op_name Opcode.addi = "ADDI"
op_name Opcode.subi = "SUBI"
op_name Opcode.and_op = "AND"
op_name Opcode.or_op = "OR"
op_name Opcode.xor_op = "XOR"
op_name Opcode.shl = "SHL"
op_name Opcode.shr = "SHR"
op_name Opcode.arr_def = "ARR_DEF"
op_name Opcode.arr_load = "ARR_LOAD"
op_name Opcode.arr_store = "ARR_STORE"
op_name Opcode.assert = "ASSERT"
op_name Opcode.call = "CALL"
op_name Opcode.ret = "RET"
op_name Opcode.struct_def = "STRUCT_DEF"
op_name Opcode.struct_load = "STRUCT_LOAD"
op_name Opcode.struct_store = "STRUCT_STORE"
op_name Opcode.tbl_def = "TBL_DEF"
op_name Opcode.tbl_load = "TBL_LOAD"
op_name Opcode.streq = "STREQ"
op_name Opcode.spill_store = "SPILL_STORE"
op_name Opcode.spill_load = "SPILL_LOAD"

unfoldable pub px64_op_name : ℕ → String
px64_op_name b = elim (decode_opcode b) [ none ↦ "UNKNOWN_OP" | some op ↦ op_name op ]
