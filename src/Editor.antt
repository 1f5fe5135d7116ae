-- ===== src/Editor.antt =====
-- The text of `PulseEditor` (kernel/src/editor.rs): its buffer, and the operations that edit it and
-- move the cursor. `none` is a panic of the source: an index out of range, or a difference below 0.
pub mod Arrays
pub mod Lines
pub mod Texts
pub mod Zipper
pub mod Scans
pub mod Places
pub mod Words
pub mod Screen
pub mod Rows
pub mod Kills
pub mod KillForward
pub mod Whole
pub mod Refinement
pub mod Painting
pub mod Paints
pub mod Commands
pub mod Keys
pub mod Valid
pub mod Redraws
pub mod KeyParts
pub mod KeyRuns
pub mod Sessions
pub mod Tests
pub mod Edits
use latency_os.Prelude.{
  ℕ, zero, suc, ◌+◌, ◌-◌, Bool, true, not, ◌&&◌, ◌||◌, Option, none, some, List, [], ◌∷◌, length,
  take, ltb, leb, ◌==◌, if◌then◌else◌, Cells,
}
use latency_os.Editor.Arrays.{
  ◌>>=◌, max_editor_buf, read, write, minus, move_up, move_down, copy_in, scan_left, scan_right,
  line_start_from, find_newline,
}

pub data EditorEscState : Type 0 where
  normal : EditorEscState
  esc : EditorEscState
  ss3 : EditorEscState
  csi : (params : Cells ℕ) (param_count : ℕ) → EditorEscState

-- A name and a status are the bytes up to their length.
pub record PulseEditor : Type 0 where
  pub buffer : Cells ℕ
  pub buf_len : ℕ
  pub cursor : ℕ
  pub top_line : ℕ
  pub filename : List ℕ
  pub status_msg : List ℕ
  pub needs_redraw : Bool
  pub is_running : Bool
  pub esc_state : EditorEscState

unfoldable pub new_editor : PulseEditor
new_editor = record {
  buffer = λ _. 0;
  buf_len = 0;
  cursor = 0;
  top_line = 1;
  filename = [];
  status_msg = [];
  needs_redraw = true;
  is_running = Bool.false;
  esc_state = EditorEscState.normal;
}

unfoldable pub set_filename : List ℕ → PulseEditor → PulseEditor
set_filename name e = record e { filename = take 32 name }

unfoldable pub set_status : List ℕ → PulseEditor → PulseEditor
set_status msg e = record e { status_msg = take 64 msg }

unfoldable pub insert_char : ℕ → PulseEditor → Option PulseEditor
insert_char c e =
    if ltb e.buf_len (max_editor_buf - 1)
    then if e.cursor == e.buf_len
      then (do
        b ← write e.buffer e.cursor c
        some (record e {
          buffer = b;
          cursor = e.cursor + 1;
          buf_len = e.buf_len + 1;
          needs_redraw = true;
        }))
      else (do
        moved ← move_up e.cursor 1 (e.buf_len - e.cursor) e.buffer
        b ← write moved e.cursor c
        some (record e {
          buffer = b;
          cursor = e.cursor + 1;
          buf_len = e.buf_len + 1;
          needs_redraw = true;
        }))
    else some e

unfoldable pub insert_str : List ℕ → PulseEditor → Option PulseEditor
insert_str s e =
    if leb (e.buf_len + length s) max_editor_buf
    then if e.cursor == e.buf_len
      then (do
        b ← copy_in e.cursor s e.buffer
        some (record e {
          buffer = b;
          cursor = e.cursor + length s;
          buf_len = e.buf_len + length s;
          needs_redraw = true;
        }))
      else (do
        moved ← move_up e.cursor (length s) (e.buf_len - e.cursor) e.buffer
        b ← copy_in e.cursor s moved
        some (record e {
          buffer = b;
          cursor = e.cursor + length s;
          buf_len = e.buf_len + length s;
          needs_redraw = true;
        }))
    else some e

unfoldable pub delete_char_backspace : PulseEditor → Option PulseEditor
delete_char_backspace e =
    if ltb 0 e.cursor
    then (do
      last ← minus e.buf_len 1
      b ← move_down (e.cursor - 1) 1 (last - (e.cursor - 1)) e.buffer
      some (record e { buffer = b; cursor = e.cursor - 1; buf_len = last; needs_redraw = true }))
    else some e

unfoldable pub delete_char_under_cursor : PulseEditor → Option PulseEditor
delete_char_under_cursor e =
    if ltb e.cursor e.buf_len
    then (do
      last ← minus e.buf_len 1
      b ← move_down e.cursor 1 (last - e.cursor) e.buffer
      some (record e { buffer = b; buf_len = last; needs_redraw = true }))
    else some e

abbrev pub is_blank : ℕ → Bool
is_blank c = c == b' ' || c == b'\t' || c == b'\n'

abbrev pub is_word : ℕ → Bool
is_word c = not (is_blank c)

unfoldable pub move_word_left : PulseEditor → Option PulseEditor
move_word_left e = if e.cursor == 0 then some e else (do
  word_end ← scan_left is_blank e.buffer e.cursor
  pos ← scan_left is_word e.buffer word_end
  some (record e { cursor = pos; needs_redraw = true }))

unfoldable pub move_word_right : PulseEditor → Option PulseEditor
move_word_right e = if leb e.buf_len e.cursor then some e else (do
  word_end ← scan_right is_word e.buffer e.cursor (e.buf_len - e.cursor)
  pos ← scan_right is_blank e.buffer word_end (e.buf_len - word_end)
  some (record e { cursor = pos; needs_redraw = true }))
