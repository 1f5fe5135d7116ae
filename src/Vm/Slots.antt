-- ===== src/Vm/Slots.antt =====
-- The instructions of `run_with_output` (pulselang-core/src/vm.rs) on arrays, structs, constant
-- tables and spill slots. An index expression that is out of range panics.
use latency_os.Prelude.{
  ℕ, zero, suc, ◌+◌, ◌-◌, ◌%◌, ◌^◌, Bool, ◌&&◌, ◌||◌, none, some, Cells, update, get_elem?, ltb,
  leb, if◌then◌else◌,
}
use latency_os.Prelude.Word.{is_negative}
use latency_os.Vm.State.{
  Setup, Vm, Operands, Outcome, running, failed, panicked, array_invalid_id, array_out_of_bounds,
  struct_out_of_bounds, table_invalid_id, table_out_of_bounds, imm16, is_reg, reg_or, set_reg,
}

-- the sizes of `array_slots` and `struct_slots`, of the lists of descriptors, and of `spill_slots`
abbrev pub slot_count : ℕ
slot_count = 1024

abbrev pub descriptor_count : ℕ
descriptor_count = 16

abbrev pub spill_count : ℕ
spill_count = 32

-- the i64 -1
abbrev pub minus_one : ℕ
minus_one = 2 ^ 64 - 1

-- the sum of the first `n` lengths
unfoldable pub sum_below : ℕ → Cells ℕ → ℕ
sum_below zero lens = 0
sum_below (suc n) lens = sum_below n lens + lens n

-- `slots[base..base + len].fill(0)`
abbrev pub fill_zero : Cells ℕ → ℕ → ℕ → Cells ℕ
fill_zero f base len j = if leb base j && ltb j (base + len) then 0 else f j

unfoldable pub exec_arr_def : Operands → Vm → Outcome
unfolding sum_below
exec_arr_def i vm =
    let len = imm16 i in
    let lens = update vm.array_lens i.rd len in
    let base = sum_below i.rd lens in
    if ltb i.rd descriptor_count
    then running (record vm {
      array_lens = lens;
      array_bases = update vm.array_bases i.rd (base % 2 ^ 16);
      array_slots =
          if leb (base + len) slot_count then fill_zero vm.array_slots base len else vm.array_slots;
    })
    else running vm

-- `idx < 0 || idx >= max_len`
abbrev pub out_of_bounds : ℕ → ℕ → Bool
out_of_bounds idx len = is_negative idx || leb len idx

unfoldable pub exec_arr_load : Operands → Vm → Outcome
exec_arr_load i vm =
    let idx = reg_or vm i.rs2 minus_one in
    let slot = vm.array_bases i.rs1 + idx in
    if leb descriptor_count i.rs1
    then failed array_invalid_id vm
    else if out_of_bounds idx (vm.array_lens i.rs1)
    then failed array_out_of_bounds vm
    else if is_reg i.rd
    then (if ltb slot slot_count
        then running (record vm { regs = update vm.regs i.rd (vm.array_slots slot) })
        else panicked)
    else running vm

unfoldable pub exec_arr_store : Operands → Vm → Outcome
exec_arr_store i vm =
    let idx = reg_or vm i.rs1 minus_one in
    let value = reg_or vm i.rs2 0 in
    let slot = vm.array_bases i.rd + idx in
    if leb descriptor_count i.rd
    then failed array_invalid_id vm
    else if out_of_bounds idx (vm.array_lens i.rd)
    then failed array_out_of_bounds vm
    else if ltb slot slot_count
    then running (record vm { array_slots = update vm.array_slots slot value })
    else panicked

unfoldable pub exec_struct_def : Operands → Vm → Outcome
unfolding sum_below
exec_struct_def i vm =
    let counts = update vm.struct_field_counts i.rd i.rs1 in
    if ltb i.rd descriptor_count
    then running (record vm {
      struct_field_counts = counts;
      struct_bases = update vm.struct_bases i.rd (sum_below i.rd counts);
    })
    else running vm

unfoldable pub exec_struct_load : Operands → Vm → Outcome
exec_struct_load i vm =
    let slot = vm.struct_bases i.rs1 + i.rs2 in
    if leb descriptor_count i.rs1 || leb (vm.struct_field_counts i.rs1) i.rs2
    then failed struct_out_of_bounds vm
    else if ltb slot slot_count
    then running (set_reg vm i.rd (vm.struct_slots slot))
    else panicked

unfoldable pub exec_struct_store : Operands → Vm → Outcome
exec_struct_store i vm =
    let value = reg_or vm i.rs2 0 in
    let slot = vm.struct_bases i.rd + i.rs1 in
    if leb descriptor_count i.rd || leb (vm.struct_field_counts i.rd) i.rs1
    then failed struct_out_of_bounds vm
    else if ltb slot slot_count
    then running (record vm { struct_slots = update vm.struct_slots slot value })
    else panicked

unfoldable pub exec_tbl_def : Operands → Vm → Outcome
exec_tbl_def i vm =
    if ltb i.rd descriptor_count
    then running (record vm {
      table_bases = update vm.table_bases i.rd i.rs1;
      table_lens = update vm.table_lens i.rd i.rs2;
    })
    else running vm

unfoldable pub exec_tbl_load : Setup → Operands → Vm → Outcome
exec_tbl_load s i vm =
    let idx = reg_or vm i.rs2 minus_one in
    if leb descriptor_count i.rs1
    then failed table_invalid_id vm
    else if out_of_bounds idx (vm.table_lens i.rs1)
    then failed table_out_of_bounds vm
    else elim (get_elem? s.const_pool (vm.table_bases i.rs1 + idx)) [
      | none ↦ failed table_out_of_bounds vm
      | some c ↦ running (set_reg vm i.rd c)
    ]

unfoldable pub exec_spill_store : Operands → Vm → Outcome
exec_spill_store i vm =
    if ltb i.rd spill_count
    then running (record vm { spill_slots = update vm.spill_slots i.rd (reg_or vm i.rs1 0) })
    else running vm

unfoldable pub exec_spill_load : Operands → Vm → Outcome
exec_spill_load i vm =
    running (set_reg vm i.rd (if ltb i.rs1 spill_count then vm.spill_slots i.rs1 else 0))
