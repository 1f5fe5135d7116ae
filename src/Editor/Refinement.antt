-- ===== src/Editor/Refinement.antt =====
-- The operations of kernel/src/editor.rs on its buffer, against the edits and moves of a text.
use latency_os.Prelude.{ℕ, ◌≡◌, Option, some, List}
use latency_os.Editor.{
  PulseEditor, insert_char, insert_str, delete_char_backspace, delete_char_under_cursor,
  move_word_left, move_word_right,
}
use latency_os.Editor.Lines.{
  kill_line_forward, kill_line_backward, move_cursor_up, move_cursor_down,
}
use latency_os.Editor.Zipper.{
  Text, Represents, whole, Turns-of-TurnsPlaced, TurnsPlaced, Edit, Move, edited, moved,
}
use latency_os.Editor.Whole.{moved-whole}
use latency_os.Editor.Edits.{insert_char-placed, insert_str-placed, delete-placed, backspace-placed}
use latency_os.Editor.Kills.{kill_backward-placed}
use latency_os.Editor.KillForward.{kill_forward-placed}
use latency_os.Editor.Words.{word_left-placed, word_right-placed}
use latency_os.Editor.Rows.{up-placed, down-placed}

abbrev pub run_edit : Edit → PulseEditor → Option PulseEditor
run_edit (Edit.typed c) = insert_char c
run_edit (Edit.pasted s) = insert_str s
run_edit Edit.backspace = delete_char_backspace
run_edit Edit.delete = delete_char_under_cursor
run_edit Edit.kill_forward = kill_line_forward
run_edit Edit.kill_backward = kill_line_backward

abbrev pub run_move : Move → PulseEditor → Option PulseEditor
run_move Move.word_left = move_word_left
run_move Move.word_right = move_word_right
run_move Move.up = move_cursor_up
run_move Move.down = move_cursor_down

edit-placed :
    (x : Edit) (before after : List ℕ)
    → TurnsPlaced (run_edit x) (before, after) (edited x (before, after))
edit-placed (Edit.typed c) before after = insert_char-placed c before after
edit-placed (Edit.pasted s) before after = insert_str-placed s before after
edit-placed Edit.backspace before after = backspace-placed before after
edit-placed Edit.delete before after = delete-placed before after
edit-placed Edit.kill_forward before after = kill_forward-placed before after
edit-placed Edit.kill_backward before after = kill_backward-placed before after

move-placed :
    (m : Move) (before after : List ℕ)
    → TurnsPlaced (run_move m) (before, after) (moved m (before, after))
move-placed Move.word_left before after = word_left-placed before after
move-placed Move.word_right before after = word_right-placed before after
move-placed Move.up before after = up-placed before after
move-placed Move.down before after = down-placed before after

-- No operation that changes the text panics on an editor that holds a text of at most 4096 bytes
-- with its cursor inside: typing and pasting put their bytes before the cursor, unless the text
-- would grow beyond 4095 and 4096 bytes; backspace and delete drop one byte, if there is one;
-- killing forward drops the rest of the line, or its newline if that rest is empty, and killing
-- backward drops the line before the cursor. The text stays within 4096 bytes.
pub run_edit-edited :
    (x : Edit) (t : Text) (e : PulseEditor)
    → Represents t e
    → (e' : PulseEditor) × (run_edit x e ≡ some e') × Represents (edited x t) e'
run_edit-edited x (before, after) =
    Turns-of-TurnsPlaced (run_edit x) (before, after) (edited x (before, after))
      (edit-placed x before after)

-- No move panics on an editor that holds a text of at most 4096 bytes with its cursor inside, and
-- each leaves the text as it is: a word move goes over blanks and letters, and a row move goes to
-- the column it came from on the line above or below, or to the end of that line if it is shorter;
-- it stays where there is no such line.
pub run_move-moved :
    (m : Move) (t : Text) (e : PulseEditor)
    → Represents t e
    → (e' : PulseEditor) × (run_move m e ≡ some e')
      × Represents (moved m t) e'
      × (whole (moved m t).0 (moved m t).1 ≡ whole t.0 t.1)
run_move-moved m (before, after) e v =
    let (e', made, represents) =
      Turns-of-TurnsPlaced (run_move m) (before, after) (moved m (before, after))
        (move-placed m before after) e v in
    (e', made, represents, moved-whole m before after)
