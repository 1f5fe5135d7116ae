-- ===== src/Editor/Commands.antt =====
-- What the keys of kernel/src/editor.rs do to the editor, without the bytes they print. How a
-- write of a file or a run of a program ends is an argument.
use latency_os.Prelude.{
  ℕ, zero, suc, ◌+◌, ◌-◌, Bool, true, false, not, Option, none, some, List, length, take, ltb, leb,
  ◌&&◌, ◌==◌, if◌then◌else◌,
}
use latency_os.Vm.Text.{codes}
use latency_os.Editor.Arrays.{
  ◌>>=◌, read, minus, move_down, scan_right, find_newline, copy_in, max_editor_buf,
}
use latency_os.Editor.{PulseEditor, EditorEscState, set_filename, set_status}
use latency_os.Editor.Painting.{paint_screen, paint_current}
use latency_os.Editor.Lines.{get_current_line_start_and_col, get_row_col, adjust_scroll}

unfoldable pub save_file : Bool → PulseEditor → PulseEditor
unfolding set_status
save_file done e =
    record (set_status (codes (if done then "Saved to LatencyFS." else "Save failed!")) e) {
      needs_redraw = true;
    }

-- `redraw`, without the bytes it sends. The row of the cursor on the screen is counted from the top line.
unfoldable pub redraw : PulseEditor → Option PulseEditor
unfolding paint_screen
redraw e = adjust_scroll e >>= λ (e', _). get_row_col e' >>= λ (row, _). paint_screen e' >>= λ _.
    minus row e'.top_line >>= λ _. some (record e' { needs_redraw = false })

unfoldable pub update_cursor_only : PulseEditor → Option PulseEditor
update_cursor_only e = adjust_scroll e >>= λ (e', moved).
    if moved
    then redraw e'
    else (get_row_col e' >>= λ (row, _). minus row e'.top_line >>= λ _. some e')

unfoldable pub redraw_current_line : PulseEditor → Option PulseEditor
unfolding paint_current
redraw_current_line e = adjust_scroll e >>= λ (e', moved).
    if moved
    then redraw e'
    else (get_row_col e' >>= λ (row, _). get_current_line_start_and_col e' >>= λ (line_start, _).
        if leb e'.top_line row && ltb row (e'.top_line + 21)
        then (minus row e'.top_line >>= λ _.
            paint_current e' line_start >>= λ _. some (record e' { needs_redraw = false }))
        else redraw e')

-- `ran` tells whether the program ran to its end or to an error; `none` is a run that panics or does
-- not return. The keys that are dropped around the wait for a key are not among those of the session.
unfoldable pub run_code : Option Bool → PulseEditor → Option PulseEditor
run_code ran e = ran >>= λ done.
    redraw
      (record (set_status
        (codes (
          if done
          then "Code executed successfully."
          else "Compile/Runtime error! (Diagnostic displayed)"))
        e) { needs_redraw = true })

unfoldable pub times : ℕ → (PulseEditor → Option PulseEditor) → PulseEditor → Option PulseEditor
times zero f e = some e
times (suc n) f e = f e >>= λ e'. times n f e'

unfoldable pub step_right : PulseEditor → Option PulseEditor
step_right e = some (if ltb e.cursor e.buf_len then record e { cursor = e.cursor + 1 } else e)

unfoldable pub step_left : PulseEditor → Option PulseEditor
step_left e = some (if ltb 0 e.cursor then record e { cursor = e.cursor - 1 } else e)

unfoldable pub to_line_start : PulseEditor → Option PulseEditor
unfolding get_current_line_start_and_col
to_line_start e =
    get_current_line_start_and_col e >>= λ (start, _). some (record e { cursor = start })

unfoldable pub to_line_end : PulseEditor → Option PulseEditor
unfolding get_current_line_start_and_col find_newline
to_line_end e = get_current_line_start_and_col e >>= λ (start, _).
    find_newline e.buffer start (e.buf_len - start) >>= λ found.
    some (record e { cursor = elim found [ none ↦ e.buf_len | some i ↦ i ] })

abbrev pub past_newline : PulseEditor → ℕ → Option ℕ
past_newline e end =
    if ltb end e.buf_len
    then (read e.buffer end >>= λ c. some (if c == b'\n' then end + 1 else end))
    else some end

-- Ctrl+K
unfoldable pub cut_current_line : PulseEditor → Option PulseEditor
unfolding get_current_line_start_and_col scan_right move_down
cut_current_line e = get_current_line_start_and_col e >>= λ (start, _). do
  line_end ← scan_right (λ c. not (c == b'\n')) e.buffer start (e.buf_len - start)
  end ← past_newline e line_end
  count ← minus end start
  if ltb 0 count
      then (do
        rest ← minus e.buf_len count
        b ← move_down start count (rest - start) e.buffer
        some (record e { buffer = b; buf_len = rest; cursor = start }))
      else some e

-- `found` is what `fs_read` gives for the name.
unfoldable pub load_file : List ℕ → Option (List ℕ) → PulseEditor → Option PulseEditor
unfolding set_filename set_status copy_in
load_file name found e =
    let fresh : PulseEditor = record (set_filename name e) {
      cursor = 0;
      buf_len = 0;
      top_line = 1;
      esc_state = EditorEscState.normal;
      needs_redraw = true;
    } in
    elim found [
      | none ↦ some (set_status (codes "New buffer.") fresh)
      | some contents ↦ copy_in 0 (take max_editor_buf contents) e.buffer >>= λ b.
          some (record (set_status (codes "Loaded from LatencyFS.") fresh) {
            buffer = b;
            buf_len = length (take max_editor_buf contents);
          })
    ]
