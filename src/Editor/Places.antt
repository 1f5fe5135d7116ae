-- ===== src/Editor/Places.antt =====
-- An editor of kernel/src/editor.rs with its cursor at a place of its text.
use latency_os.Prelude.{ℕ, ◌+◌, ◌≤◌, ◌≡◌, refl, ◌∙◌, ap, arith, true, some, List, length, sym}
use latency_os.Editor.Arrays.{◌>>=◌, max_editor_buf, minus}
use latency_os.Editor.{PulseEditor}
use latency_os.Editor.Lines.{get_current_line_start_and_col}
use latency_os.Editor.Texts.{Leads}
use latency_os.Editor.Zipper.{Text, back_while, in_line, column, Represents, placed}
use latency_os.Editor.Scans.{Holds, line_start_from_lem, length-back_while}

-- The editor with its cursor at another place of its text.
abbrev pub carried : ℕ → ℕ → PulseEditor → PulseEditor
carried cursor n e = record e { cursor = cursor; buf_len = n; needs_redraw = true }

pub carried-Represents :
    (e : PulseEditor) (n cursor : ℕ) (t : Text)
    → cursor ≡ length t.0
    → n ≤ max_editor_buf
    → Holds e.buffer n t
    → Represents t (carried cursor n e)
carried-Represents e n cursor t at fits h = record {
  cursor = at;
  buf_len = sym h.whole;
  fits = omega (arith, h.whole);
  left = h.left;
  right = h.right;
}

pub Holds-placed :
    (before after : List ℕ) (e : PulseEditor)
    → Represents (before, after) (placed (before, after) e)
    → Holds e.buffer (length before + length after) (before, after)
Holds-placed before after e v = record { left = v.left; right = v.right; whole = refl }

pub start_and_col :
    (before after : List ℕ) (e : PulseEditor)
    → length before ≤ max_editor_buf
    → Leads e.buffer before
    → get_current_line_start_and_col (placed (before, after) e)
      ≡ some (length (back_while in_line before after).0, column before)
unfolding get_current_line_start_and_col
start_and_col before after e fits left =
    let size = length-back_while before after in
    let line_start : ℕ = length (back_while in_line before after).0 in
    let col : minus (length before) line_start ≡ some (column before) = ground arith in
    ap (λ r. r >>= λ s. minus (length before) s >>= λ c. some (s, c))
      (line_start_from_lem e.buffer before after fits left)
    ∙ ap (λ r. r >>= λ c. some (line_start, c)) col
