-- ===== src/Editor/Keys.antt =====
-- What `start_editor` of kernel/src/editor.rs does for each byte that it reads and behind each
-- batch of bytes. What is painted is left out. How the write of a file or the run of a program ends,
-- which a key may ask for, is an argument.
use latency_os.Prelude.{
  ℕ, ◌+◌, ◌-◌, ◌*◌, Bool, true, false, ◌&&◌, ◌||◌, Option, some, List, [], ◌∷◌, ltb, leb, ◌==◌,
  if◌then◌else◌, Cells, update,
}
use latency_os.Vm.Text.{codes}
use latency_os.Editor.Commands.{
  redraw_current_line, update_cursor_only, save_file, redraw, run_code, times, step_right,
  step_left, to_line_start, to_line_end, cut_current_line, load_file,
}
use latency_os.Editor.Arrays.{◌>>=◌}
use latency_os.Editor.{
  PulseEditor, EditorEscState, set_status, insert_char, insert_str, delete_char_backspace,
  delete_char_under_cursor, move_word_left, move_word_right,
}
use latency_os.Editor.Lines.{move_cursor_up, move_cursor_down, smaller}

-- How the save and the run end that a key may ask for.
pub record Ending : Type 0 where
  pub saved : Bool
  pub ran : Option Bool

-- The editor with the variables of the loop.
pub record Session : Type 0 where
  pub editor : PulseEditor
  pub last_was_cr : Bool
  pub line_changed : Bool
  pub structure_changed : Bool
  pub cursor_only : Bool

abbrev pub and_structure : Session → Option PulseEditor → Option Session
and_structure s m = m >>= λ e. some (record s { editor = e; structure_changed = true })

abbrev pub and_cursor : Session → Option PulseEditor → Option Session
and_cursor s m = m >>= λ e. some (record s { editor = e; cursor_only = true })

-- A byte with `esc_state` at `Normal`.
unfoldable pub normal_key : Ending → ℕ → Session → Option Session
unfolding save_file
normal_key done b s =
    let e = s.editor in
    if b == 0x1B
    then some (record s { editor = record e { esc_state = EditorEscState.esc } })
    else if b == 0x11
    then some (record s { editor = record e { is_running = false } })
    else if b == 0x13
    then and_structure s (some (save_file done.saved e))
    else if b == 0x12
    then and_structure s (run_code done.ran e)
    else if b == 0x18
    then some (record s { editor = record (save_file done.saved e) { is_running = false } })
    else if b == 0x0C
    then and_structure s (some e)
    else if b == 0x19
    then and_structure s (times 20 move_cursor_up e)
    else if b == 0x16
    then and_structure s (times 20 move_cursor_down e)
    else if b == 0x0B
    then and_structure s (cut_current_line e)
    else if b == 0x15
    then and_structure s (some e)
    else if b == b'\t'
    then (insert_str (codes "    ") e >>= λ e'.
        some (record s { editor = e'; line_changed = true; last_was_cr = false }))
    else if b == 0x08 || b == 0x7F
    then (delete_char_backspace e >>= λ e'.
        some (record s { editor = e'; structure_changed = true; last_was_cr = false }))
    else if b == b'\r'
    then (insert_char b'\n' e >>= λ e'.
        some (record s { editor = e'; structure_changed = true; last_was_cr = true }))
    else if b == b'\n'
    then (if s.last_was_cr
        then some (record s { last_was_cr = false })
        else (insert_char b'\n' e >>= λ e'.
            some (record s { editor = e'; structure_changed = true; last_was_cr = false })))
    else if leb 0x20 b && leb b 0x7E
    then (insert_char b e >>= λ e'.
        some (record s { editor = e'; line_changed = true; last_was_cr = false }))
    else some (record s { last_was_cr = false })

abbrev pub at_normal : PulseEditor → PulseEditor
at_normal e = record e { esc_state = EditorEscState.normal }

-- A byte behind an escape.
unfoldable pub esc_key : Ending → ℕ → Session → Option Session
unfolding save_file set_status
esc_key done b s =
    let e = s.editor in
    if b == b'['
    then some (record s { editor = record e { esc_state = EditorEscState.csi (λ _. 0) 0 } })
    else if b == b'O'
    then some (record s { editor = record e { esc_state = EditorEscState.ss3 } })
    else if b == b's' || b == b'S'
    then and_structure s (some (at_normal (save_file done.saved e)))
    else if b == b'r' || b == b'R'
    then and_structure s (run_code done.ran e >>= λ e'. some (at_normal e'))
    else if b == b'q' || b == b'Q'
    then some (record s { editor = record e { is_running = false } })
    else if b == b'c' || b == b'C'
    then and_structure s (
        some
          (at_normal (set_status (codes "Buffer cleared.") (record e { buf_len = 0; cursor = 0 }))))
    else if leb 0x20 b && leb b 0x7E
    then (insert_char b e >>= λ e'. some (record s { editor = at_normal e'; line_changed = true }))
    else some (record s { editor = at_normal e })

-- A byte behind `ESC O`, before `esc_state` is reset.
unfoldable pub ss3_move : Ending → ℕ → Session → Option Session
unfolding save_file
ss3_move done b s =
    let e = s.editor in
    if b == b'A'
    then and_cursor s (move_cursor_up e)
    else if b == b'B'
    then and_cursor s (move_cursor_down e)
    else if b == b'C'
    then and_cursor s (step_right e)
    else if b == b'D'
    then and_cursor s (step_left e)
    else if b == b'H'
    then and_cursor s (to_line_start e)
    else if b == b'F'
    then and_cursor s (to_line_end e)
    else if b == b'Q'
    then and_structure s (some (save_file done.saved e))
    else if b == b'R'
    then and_structure s (some e)
    else some s

abbrev pub and_normal : Option Session → Option Session
and_normal m = m >>= λ s. some (record s { editor = at_normal s.editor })

unfoldable pub ss3_key : Ending → ℕ → Session → Option Session
unfolding ss3_move
ss3_key done b s = and_normal (ss3_move done b s)

-- `ESC [ n ~`; an editor that stops keeps its `esc_state`
unfoldable pub tilde_key : Ending → ℕ → Session → Option Session
unfolding save_file
tilde_key done n s =
    let e = s.editor in
    if n == 12
    then and_normal (and_structure s (some (save_file done.saved e)))
    else if n == 15
    then and_normal (and_structure s (run_code done.ran e))
    else if n == 21
    then some (record s { editor = record e { is_running = false } })
    else if n == 3
    then and_normal (and_structure s (delete_char_under_cursor e))
    else if n == 1 || n == 7
    then and_normal (and_cursor s (to_line_start e))
    else if n == 4 || n == 8
    then and_normal (and_cursor s (to_line_end e))
    else if n == 5
    then and_normal (and_structure s (times 20 move_cursor_up e))
    else if n == 6
    then and_normal (and_structure s (times 20 move_cursor_down e))
    else if n == 200 || n == 201
    then and_normal (and_structure s (some e))
    else and_normal (some s)

-- A byte behind `ESC [`. The parameters are of 16 bits, and saturate.
unfoldable pub csi_key : Ending → ℕ → Cells ℕ → ℕ → Session → Option Session
unfolding tilde_key
csi_key done b params param_count s =
    let e = s.editor in
    let is_ctrl = params 0 == 1 && params 1 == 5 in
    if leb b'0' b && leb b b'9'
    then (if ltb param_count 4
        then some (record s {
          editor = record e {
            esc_state =
                EditorEscState.csi
                  (update params param_count
                    (smaller 65535 (smaller 65535 (params param_count * 10) + (b - b'0'))))
                  param_count;
          };
        })
        else some s)
    else if b == b';'
    then (if ltb param_count 3
        then some (record s {
          editor = record e { esc_state = EditorEscState.csi params (param_count + 1) };
        })
        else some s)
    else if b == b'A'
    then and_normal (and_cursor s (times (if is_ctrl then 5 else 1) move_cursor_up e))
    else if b == b'B'
    then and_normal (and_cursor s (times (if is_ctrl then 5 else 1) move_cursor_down e))
    else if b == b'C'
    then and_normal (and_cursor s (if is_ctrl then move_word_right e else step_right e))
    else if b == b'D'
    then and_normal (and_cursor s (if is_ctrl then move_word_left e else step_left e))
    else if b == b'H'
    then and_normal (and_cursor s (to_line_start e))
    else if b == b'F'
    then and_normal (and_cursor s (to_line_end e))
    else if b == b'~'
    then tilde_key done (params 0) s
    else if b == b'P'
    then and_normal (and_structure s (delete_char_under_cursor e))
    else and_normal (some s)

abbrev pub key_in : EditorEscState → Ending → ℕ → Session → Option Session
key_in EditorEscState.normal done b s = normal_key done b s
key_in EditorEscState.esc done b s = esc_key done b s
key_in EditorEscState.ss3 done b s = ss3_key done b s
key_in (EditorEscState.csi params param_count) done b s = csi_key done b params param_count s

-- One byte.
unfoldable pub read_byte : Ending → ℕ → Session → Option Session
read_byte done b s = key_in s.editor.esc_state done b s

-- What follows the bytes of a batch: what has changed is drawn.
unfoldable pub refresh : Session → Option Session
unfolding redraw redraw_current_line update_cursor_only
refresh s =
    if (s.structure_changed || s.line_changed || s.cursor_only) && s.editor.is_running
    then (if s.structure_changed
        then (redraw s.editor >>= λ e. some (record s {
          editor = e;
          structure_changed = false;
          line_changed = false;
          cursor_only = false;
        }))
        else if s.line_changed
        then (redraw_current_line s.editor >>= λ e.
            some (record s { editor = e; line_changed = false; cursor_only = false }))
        else (update_cursor_only s.editor >>= λ e.
            some (record s { editor = e; cursor_only = false })))
    else some s

-- A byte that arrives, or the end of a batch, where no byte is waiting.
pub data Input : Type 0 where
  typed : (done : Ending) (b : ℕ) → Input
  drained : Input

-- The loop ends with the first byte that stops the editor.
unfoldable pub keys : List Input → Session → Option Session
unfolding read_byte refresh
keys [] s = some s
keys (typed done b ∷ rest) s =
    if s.editor.is_running then (read_byte done b s >>= λ s'. keys rest s') else some s
keys (drained ∷ rest) s = if s.editor.is_running then (refresh s >>= λ s'. keys rest s') else some s

abbrev pub ready : PulseEditor → PulseEditor
ready e =
    set_status (codes "Ready. (^S: Save, ^R: Run, ^Q: Quit, ^X: Save&Quit, Esc C: Clear)")
      (record e { is_running = true })

-- A file is loaded, and the keys of a session are read.
unfoldable pub start_editor : List ℕ → Option (List ℕ) → List Input → PulseEditor → Option Session
unfolding load_file set_status redraw keys
start_editor name found input e = do
  loaded ← load_file name found e
  drawn ← redraw (ready loaded)
  keys input (record {
    editor = drawn;
    last_was_cr = false;
    line_changed = false;
    structure_changed = false;
    cursor_only = false;
  })
