-- ===== src/Editor/Zipper.antt =====
-- What the operations of kernel/src/editor.rs promise, on the bytes before and behind the cursor.
use latency_os.Prelude.{
  ℕ, zero, suc, ◌+◌, ◌-◌, ◌≤◌, ◌≡◌, sym, subst, Option, some, Bool, not, List, [], ◌∷◌, length, ltb,
  leb, ◌==◌, if◌then◌else◌,
}
use latency_os.Editor.Arrays.{max_editor_buf}
use latency_os.Editor.{PulseEditor, is_blank, is_word}
use latency_os.Editor.Texts.{Spells, Leads, push_all}

-- The bytes before the cursor, the last one first, and those behind it.
abbrev pub Text : Type 0
Text = List ℕ × List ℕ

pub record Represents (t : Text) (e : PulseEditor) : Type 0 where
  pub cursor : e.cursor ≡ length t.0
  pub buf_len : e.buf_len ≡ length t.0 + length t.1
  pub fits : length t.0 + length t.1 ≤ max_editor_buf
  pub left : Leads e.buffer t.0
  pub right : Spells e.buffer (length t.0) t.1

-- the whole text, from its first byte on
abbrev pub whole : List ℕ → List ℕ → List ℕ
whole [] after = after
whole (x ∷ before) after = whole before (x ∷ after)

-- An editor with its cursor between the two parts of a text.
abbrev pub placed : Text → PulseEditor → PulseEditor
placed t e = record e { cursor = length t.0; buf_len = length t.0 + length t.1 }

pub placed-eq : {t : Text} {e : PulseEditor} → Represents t e → placed t e ≡ e
placed-eq {e = e} v i = record e { cursor = sym v.cursor i; buf_len = sym v.buf_len i }

-- An operation turns an editor that holds `t` into one that holds `u`.
abbrev pub Turns : (PulseEditor → Option PulseEditor) → Text → Text → Type 0
Turns f t u =
    (e : PulseEditor) → Represents t e → (e' : PulseEditor) × (f e ≡ some e') × Represents u e'

-- It is enough to look at editors whose cursor and length are written as the text says.
abbrev pub TurnsPlaced : (PulseEditor → Option PulseEditor) → Text → Text → Type 0
TurnsPlaced f t u =
    (e : PulseEditor)
    → Represents t (placed t e)
    → (e' : PulseEditor) × (f (placed t e) ≡ some e') × Represents u e'

pub Turns-of-TurnsPlaced :
    (f : PulseEditor → Option PulseEditor) (t u : Text) → TurnsPlaced f t u → Turns f t u
Turns-of-TurnsPlaced f t u turns e v =
    subst (λ d. (e' : PulseEditor) × (f d ≡ some e') × Represents u e') (placed-eq v)
      (turns e (subst (Represents t) (sym (placed-eq v)) v))

-- back over the bytes that pass a test
abbrev pub back_while : (ℕ → Bool) → List ℕ → List ℕ → Text
back_while test [] after = ([], after)
back_while test (x ∷ before) after =
    if test x then back_while test before (x ∷ after) else (x ∷ before, after)

-- forward over the bytes that pass a test
abbrev pub forth_while : (ℕ → Bool) → List ℕ → List ℕ → Text
forth_while test before [] = (before, [])
forth_while test before (x ∷ after) =
    if test x then forth_while test (x ∷ before) after else (before, x ∷ after)

-- forward by at most `n` bytes, but not past the end of the line
abbrev pub forth_in_line : ℕ → List ℕ → List ℕ → Text
forth_in_line zero before after = (before, after)
forth_in_line (suc n) before [] = (before, [])
forth_in_line (suc n) before (x ∷ after) =
    if x == b'\n' then (before, x ∷ after) else forth_in_line n (x ∷ before) after

abbrev pub in_line : ℕ → Bool
in_line c = not (c == b'\n')

-- the column of the cursor: the bytes since the last newline
abbrev pub column : List ℕ → ℕ
column [] = 0
column (x ∷ before) = if x == b'\n' then 0 else suc (column before)

-- The text from the end of the line on.
abbrev pub from_line_end : List ℕ → List ℕ
from_line_end [] = []
from_line_end (x ∷ after) = if x == b'\n' then x ∷ after else from_line_end after

-- The text without the rest of its first line, or without the newline if that rest is empty.
abbrev pub without_line : List ℕ → List ℕ
without_line [] = []
without_line (x ∷ after) = if x == b'\n' then after else from_line_end after

abbrev pub tail : List ℕ → List ℕ
tail [] = []
tail (_ ∷ xs) = xs

pub data Edit : Type 0 where
  typed : (c : ℕ) → Edit
  pasted : (s : List ℕ) → Edit
  backspace : Edit
  delete : Edit
  kill_forward : Edit
  kill_backward : Edit

pub data Move : Type 0 where
  word_left : Move
  word_right : Move
  up : Move
  down : Move

abbrev pub edited : Edit → Text → Text
edited (Edit.typed c) (before, after) =
    if ltb (length before + length after) (max_editor_buf - 1)
    then (c ∷ before, after)
    else (before, after)
edited (Edit.pasted s) (before, after) =
    if leb (length before + length after + length s) max_editor_buf
    then (push_all s before, after)
    else (before, after)
edited Edit.backspace (before, after) = (tail before, after)
edited Edit.delete (before, after) = (before, tail after)
edited Edit.kill_forward (before, after) = (before, without_line after)
edited Edit.kill_backward (before, after) = ((back_while in_line before after).0, after)

-- the cursor at the start of a line that ends above, at the column it had
abbrev pub onto_above : ℕ → Text → Text → Text
onto_above col here ([], after) = here
onto_above col here (x ∷ above, after) =
    let start : Text = back_while in_line above (x ∷ after) in forth_in_line col start.0 start.1

abbrev pub onto_below : ℕ → Text → Text → Text
onto_below col here (before, []) = here
onto_below col here (before, x ∷ below) = forth_in_line col (x ∷ before) below

abbrev pub moved : Move → Text → Text
moved Move.word_left (before, after) =
    let gap : Text = back_while is_blank before after in back_while is_word gap.0 gap.1
moved Move.word_right (before, after) =
    let word : Text = forth_while is_word before after in forth_while is_blank word.0 word.1
moved Move.up (before, after) =
    onto_above (column before) (before, after) (back_while in_line before after)
moved Move.down (before, after) =
    onto_below (column before) (before, after) (forth_while in_line before after)
