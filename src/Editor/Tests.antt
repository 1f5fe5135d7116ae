-- ===== src/Editor/Tests.antt =====
-- Runs of the editor of kernel/src/editor.rs.
use latency_os.Prelude.{
  ℕ, ◌+◌, ◌≤◌, ◌<◌, ◌↔◌, Bool, ◌≡◌, refl, arith, true, false, Option, none, some, List, [], ◌∷◌,
  map, ◌++◌, zero, suc, Cells, update,
}
use latency_os.Vm.Text.{codes}
use latency_os.Editor.Arrays.{find_newline, move_up, move_down, scan_right, line_start_from}
use latency_os.Editor.{PulseEditor, EditorEscState, insert_char}
use latency_os.Editor.Lines.{
  get_row_col, adjust_scroll, move_cursor_up, get_current_line_start_and_col,
}
use latency_os.Editor.Zipper.{Text, Represents, Edit, Move, edited, moved, whole}
use latency_os.Editor.Refinement.{run_edit, run_move, run_edit-edited, run_move-moved}
use latency_os.Editor.Painting.{
  paint_screen, paint_current, paint_rows, paint_line, paint_byte, paint_plain, paint_number, slice,
  get_time_literal_len, skip_lines,
}
use latency_os.Editor.Keys.{
  Input, Session, keys, normal_key, esc_key, ss3_key, csi_key, start_editor,
}
use latency_os.Editor.Commands.{cut_current_line, times}
use latency_os.Editor.Screen.{adjust_scroll-newlines}
use latency_os.Editor.Sessions.{start_editor-Runs}
use latency_os.Editor.KeyRuns.{Runs}

-- "a", a line end and "b", with the cursor on the "b"
abbrev two_lines : PulseEditor
two_lines = record {
  buffer = update (update (update (λ _. 0) 0 b'a') 1 b'\n') 2 b'b';
  buf_len = 3;
  cursor = 2;
  top_line = 1;
  filename = [];
  status_msg = [];
  needs_redraw = false;
  is_running = true;
  esc_state = EditorEscState.normal;
}

abbrev on_second : Text
on_second = (b'\n' ∷ b'a' ∷ [], b'b' ∷ [])

two_lines-Represents : Represents on_second two_lines
two_lines-Represents = record {
  cursor = refl;
  buf_len = refl;
  fits = omega arith;
  left = (refl, (refl, tt));
  right = (refl, tt);
}

run_edit-edited_example :
    (e' : PulseEditor) × (run_edit (Edit.pasted (codes "cd")) two_lines ≡ some e')
    × Represents (edited (Edit.pasted (codes "cd")) on_second) e'
run_edit-edited_example =
    run_edit-edited (Edit.pasted (codes "cd")) on_second two_lines two_lines-Represents

run_move-moved_example :
    (e' : PulseEditor) × (run_move Move.up two_lines ≡ some e')
    × Represents (moved Move.up on_second) e'
    × (whole (moved Move.up on_second).0 (moved Move.up on_second).1
        ≡ whole on_second.0 on_second.1)
run_move-moved_example = run_move-moved Move.up on_second two_lines two_lines-Represents

text_from : Cells ℕ → ℕ → ℕ → List ℕ
text_from b i zero = []
text_from b i (suc n) = b i ∷ text_from b (i + 1) n

session : PulseEditor → Session
session e = record {
  editor = e;
  last_was_cr = false;
  line_changed = false;
  structure_changed = false;
  cursor_only = false;
}

-- a byte; a save works, and a run ends with an error
abbrev type_key : ℕ → Input
type_key b = Input.typed (record { saved = true; ran = some false }) b

-- "x", delete, up, the end of the line, a run, Ctrl+K, a redraw and Ctrl+Q
abbrev some_keys : List Input
some_keys =
    map type_key (
      b'x' ∷ 0x1B ∷ b'[' ∷ b'3' ∷ b'~' ∷ 0x1B ∷ b'[' ∷ b'A' ∷ 0x1B ∷ b'O' ∷ b'F' ∷ 0x12 ∷ 0x0B ∷ [])
    ++ Input.drained ∷ type_key 0x11 ∷ []

start_editor-Runs_example :
    Runs (start_editor (codes "/a.pul") (some (codes "let a")) some_keys two_lines)
start_editor-Runs_example =
    start_editor-Runs (codes "/a.pul") (some (codes "let a")) some_keys two_lines (omega arith)

edits_on_texts :
    (edited Edit.kill_backward (b'b' ∷ b'\n' ∷ [], b'c' ∷ []) ≡ (b'\n' ∷ [], b'c' ∷ []))
    × (moved Move.up on_second ≡ ([], whole on_second.0 on_second.1))
edits_on_texts = (refl, refl)

-- The text and the cursor.
text_at : Option Session → Option (List ℕ × ℕ)
text_at none = none
text_at (some s) = some (text_from s.editor.buffer 0 s.editor.buf_len, s.editor.cursor)

typed_keys :
    text_at (keys (map type_key (b'x' ∷ 0x1B ∷ b'[' ∷ b'A' ∷ b'y' ∷ [])) (session two_lines))
    ≡ some (codes "ay" ++ b'\n' ∷ codes "xb", 2)
unfolding text_at text_from keys session insert_char move_cursor_up get_current_line_start_and_col
    normal_key esc_key csi_key move_up line_start_from times
typed_keys = refl

typed_kill :
    text_at (keys (map type_key (0x1B ∷ b'O' ∷ b'A' ∷ 0x0B ∷ [])) (session two_lines))
    ≡ some (codes "b", 0)
unfolding text_at text_from keys session cut_current_line move_cursor_up
    get_current_line_start_and_col normal_key esc_key ss3_key move_down line_start_from scan_right
typed_kill = refl

-- `ESC [ ? 2 5 h` leaves its sequence at the `?`: the rest is typed.
typed_sequence :
    text_at (keys (map type_key (0x1B ∷ b'[' ∷ b'?' ∷ b'2' ∷ b'5' ∷ b'h' ∷ [])) (session two_lines))
    ≡ some (b'a' ∷ b'\n' ∷ codes "25hb", 5)
unfolding text_at text_from keys session insert_char normal_key esc_key csi_key move_up
typed_sequence = refl

-- "1ms", in which the painting of the screen stays in its first row, and that of the line goes to its
-- end
abbrev one_time : PulseEditor
one_time = record two_lines {
  buffer = λ i. elim i [ zero ↦ b'1' | suc zero ↦ b'm' | suc (suc i') ↦ b's' ];
  buf_len = 3;
  cursor = 0;
}

paints : (paint_screen one_time ≡ some 2) × (paint_current one_time 0 ≡ some 3)
unfolding paint_screen paint_current paint_rows paint_line paint_byte paint_plain paint_number slice
    get_time_literal_len scan_right find_newline skip_lines
paints = (refl, refl)

adjust_scroll-newlines_example :
    (get_row_col two_lines ≡ some (2, 1))
    × ((top : ℕ) × (changed : Bool) × (adjust_scroll two_lines
          ≡ some (record two_lines { top_line = top }, changed))
        × (top ≤ 2)
        × (2 < top + 21)
        × (0 < top)
        × ((changed ≡ false) ↔ (top ≡ two_lines.top_line)))
adjust_scroll-newlines_example = adjust_scroll-newlines on_second two_lines two_lines-Represents
