-- ===== src/Vm/Flow.antt =====
-- The instructions of `run_with_output` (pulselang-core/src/vm.rs) that jump, call and return, and
-- those on the stack of deadlines.
use latency_os.Prelude.{
  ℕ, ◌+◌, ◌-◌, ◌%◌, ◌^◌, not, ◌&&◌, List, Cells, update, ltb, leb, ◌==◌, if◌then◌else◌,
}
use latency_os.Prelude.Word.{word_add}
use latency_os.Isa.Limits.{max_call_depth}
use latency_os.Vm.State.{
  Host, Setup, Vm, Operands, Outcome, running, panicked, halted, failed, assertion_failed,
  stack_overflow, imm16, is_reg, reg_or, get_uptime_ns, write_str,
}
use latency_os.Vm.Text.{codes}

unfoldable pub exec_jmp : Operands → Vm → Outcome
exec_jmp i vm = running (record vm { ip = imm16 i })

unfoldable pub exec_jz : Operands → Vm → Outcome
exec_jz i vm =
    if is_reg i.rd && vm.regs i.rd == 0 then running (record vm { ip = imm16 i }) else running vm

unfoldable pub exec_jnz : Operands → Vm → Outcome
exec_jnz i vm =
    if is_reg i.rd && not (vm.regs i.rd == 0)
    then running (record vm { ip = imm16 i })
    else running vm

unfoldable pub exec_assert : Operands → Vm → Outcome
exec_assert i vm = if reg_or vm i.rd 0 == 0 then failed assertion_failed vm else running vm

-- how many registers a call saves
abbrev pub frame_size : ℕ
frame_size = 16

-- `ip` already stands behind the call.
unfoldable pub exec_call : Operands → Vm → Outcome
exec_call i vm =
    if leb max_call_depth vm.call_sp
    then failed stack_overflow vm
    else running (record vm {
      call_stack = update vm.call_stack vm.call_sp (vm.ip % 2 ^ 16);
      frame_stack = update vm.frame_stack vm.call_sp vm.regs;
      call_sp = vm.call_sp + 1;
      ip = imm16 i;
    })

-- the registers after a return: `$rax` is kept, and the rest of the frame comes back
abbrev pub restore : Cells ℕ → Cells ℕ → Cells ℕ
restore frame regs r = if r == 0 then regs 0 else if ltb r frame_size then frame r else regs r

unfoldable pub exec_ret : Vm → Outcome
exec_ret vm =
    let sp = vm.call_sp - 1 in
    if vm.call_sp == 0
    then halted vm
    else if ltb sp max_call_depth
    then running (record vm {
      call_sp = sp;
      regs = restore (vm.frame_stack sp) vm.regs;
      ip = vm.call_stack sp;
    })
    else panicked

abbrev pub drop_message : List ℕ
drop_message = codes "[DEADLINE_DROP] Frame dropped due to deadline breach\n"

abbrev pub max_deadlines : ℕ
max_deadlines = 8

module _ (h : Host) (s : Setup) where
  unfoldable pub exec_within_start : Operands → Vm → Outcome
  exec_within_start i vm =
      let deadline = word_add (get_uptime_ns h s vm) (reg_or vm i.rd 500_000) in
      if ltb vm.dl_sp max_deadlines
      then running (record vm {
        deadline_stack = update vm.deadline_stack vm.dl_sp deadline;
        dl_sp = vm.dl_sp + 1;
      })
      else running vm

  unfoldable pub exec_drop : Vm → Outcome
  exec_drop vm =
      if ltb 0 vm.dl_sp
      then (if ltb (vm.dl_sp - 1) max_deadlines
          then (if ltb (vm.deadline_stack (vm.dl_sp - 1)) (get_uptime_ns h s vm)
              then running (write_str drop_message vm)
              else running vm)
          else panicked)
      else running vm

unfoldable pub exec_within_end : Vm → Outcome
exec_within_end vm =
    if ltb 0 vm.dl_sp then running (record vm { dl_sp = vm.dl_sp - 1 }) else running vm
