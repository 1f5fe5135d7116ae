-- ===== src/Editor/Lines.antt =====
-- The lines of the text in kernel/src/editor.rs: moves between them, kills, the row and the column.
use latency_os.Prelude.{
  ℕ, zero, suc, ◌+◌, ◌-◌, Bool, true, not, ◌&&◌, Option, none, some, ltb, leb, ◌==◌, if◌then◌else◌,
  Cells,
}
use latency_os.Editor.Arrays.{
  ◌>>=◌, read, minus, move_down, scan_right, line_start_from, find_newline,
}
use latency_os.Editor.{PulseEditor}

unfoldable pub get_current_line_start_and_col : PulseEditor → Option (ℕ × ℕ)
get_current_line_start_and_col e = do
  line_start ← line_start_from e.buffer e.cursor
  col ← minus e.cursor line_start
  some (line_start, col)

abbrev pub smaller : ℕ → ℕ → ℕ
smaller a b = if leb a b then a else b

-- to the line above the one that starts at `cur_line_start`
abbrev pub to_line_above : PulseEditor → ℕ → ℕ → Option PulseEditor
to_line_above e col cur_line_start =
    if ltb 0 cur_line_start
    then (do
      let prev_line_end = cur_line_start - 1
      prev_line_start ← line_start_from e.buffer prev_line_end
      prev_line_len ← minus prev_line_end prev_line_start
      some (record e { cursor = prev_line_start + smaller col prev_line_len; needs_redraw = true }))
    else some e

unfoldable pub move_cursor_up : PulseEditor → Option PulseEditor
unfolding get_current_line_start_and_col
move_cursor_up e =
    get_current_line_start_and_col e >>= λ (cur_line_start, col). to_line_above e col cur_line_start

-- to the line behind the newline at `at`, if there is one
abbrev pub to_next_line : PulseEditor → ℕ → Option ℕ → Option PulseEditor
to_next_line e col none = some e
to_next_line e col (some at) =
    let start = at + 1 in
    if leb start e.buf_len
    then (do
      found ← find_newline e.buffer start (e.buf_len - start)
      let end : ℕ = elim found [ none ↦ e.buf_len | some i ↦ i ]
      next_line_len ← minus end start
      some (record e { cursor = start + smaller col next_line_len; needs_redraw = true }))
    else some e

unfoldable pub move_cursor_down : PulseEditor → Option PulseEditor
unfolding get_current_line_start_and_col
move_cursor_down e = get_current_line_start_and_col e >>= λ (cur_line_start, col).
    find_newline e.buffer e.cursor (e.buf_len - e.cursor) >>= λ found. to_next_line e col found

-- The bytes from the cursor up to `end` go.
abbrev pub cut_forward : PulseEditor → ℕ → Option PulseEditor
cut_forward e end = do
  count ← minus end e.cursor
  if ltb 0 count
      then (do
        rest ← minus e.buf_len count
        b ← move_down e.cursor count (rest - e.cursor) e.buffer
        some (record e { buffer = b; buf_len = rest; needs_redraw = true }))
      else some e

unfoldable pub kill_line_forward : PulseEditor → Option PulseEditor
kill_line_forward e = if leb e.buf_len e.cursor then some e else (do
  line_end ← scan_right (λ c. not (c == b'\n')) e.buffer e.cursor (e.buf_len - e.cursor)
  if line_end == e.cursor && ltb line_end e.buf_len
      then (read e.buffer line_end >>= λ c.
          cut_forward e (if c == b'\n' then line_end + 1 else line_end))
      else cut_forward e line_end)

unfoldable pub kill_line_backward : PulseEditor → Option PulseEditor
unfolding get_current_line_start_and_col
kill_line_backward e = get_current_line_start_and_col e >>= λ (start, col). do
  count ← minus e.cursor start
  if ltb 0 count
      then (do
        rest ← minus e.buf_len count
        b ← move_down start count (rest - start) e.buffer
        some (record e { buffer = b; buf_len = rest; cursor = start; needs_redraw = true }))
      else some e

-- one byte of the walk to the cursor, from a row and a column
abbrev pub past : ℕ → ℕ → ℕ → ℕ × ℕ
past c row col =
    if c == b'\n' then (row + 1, 1) else if c == b'\t' then (row, col + 4) else (row, col + 1)

unfoldable pub row_col_from : Cells ℕ → ℕ → ℕ → ℕ × ℕ → Option (ℕ × ℕ)
row_col_from b i zero (row, col) = some (row, col)
row_col_from b i (suc n) (row, col) = read b i >>= λ c. row_col_from b (i + 1) n (past c row col)

unfoldable pub get_row_col : PulseEditor → Option (ℕ × ℕ)
unfolding row_col_from
get_row_col e = row_col_from e.buffer 0 e.cursor (1, 1)

-- The top line, and whether it changed.
unfoldable pub adjust_scroll : PulseEditor → Option (PulseEditor × Bool)
unfolding get_row_col
adjust_scroll e = get_row_col e >>= λ (row, _).
    let top = if e.top_line == 0 then 1 else e.top_line in
    let moved = if ltb row top then row else if leb (top + 21) row then row - 21 + 1 else top in
    some (record e { top_line = moved }, not (moved == e.top_line))
