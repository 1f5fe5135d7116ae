-- ===== src/Editor/Valid.antt =====
-- The editor of kernel/src/editor.rs with its cursor inside its text and its text inside the buffer:
-- what every operation relies on and keeps.
use latency_os.Prelude.{
  ℕ, zero, suc, ◌+◌, ◌-◌, ◌≤◌, ◌≡◌, refl, ◌∙◌, ap, arith, Bool, Option, none, some, List, [], ◌∷◌,
  length, Cells, subst, sym, ◌==◌, if◌then◌else◌, Bool-cases, inl, inr,
}
use latency_os.Editor.Arrays.{◌>>=◌, max_editor_buf, read, scan_right, find_newline}
use latency_os.Editor.{PulseEditor}
use latency_os.Editor.Painting.{or_end}
use latency_os.Editor.Lines.{get_current_line_start_and_col, row_col_from, past}
use latency_os.Editor.Texts.{Spells, Leads}
use latency_os.Editor.Zipper.{
  Text, Represents, placed-eq, Turns, Edit, Move, edited, moved, back_while, in_line, column,
}
use latency_os.Editor.Scans.{length-back_while, read_lem}
use latency_os.Editor.Places.{start_and_col}
use latency_os.Editor.Refinement.{run_edit, run_move, run_edit-edited, run_move-moved}

pub record IsValid (e : PulseEditor) : Type 0 where
  pub inside : e.cursor ≤ e.buf_len
  pub fits : e.buf_len ≤ max_editor_buf

-- The operation does not panic, and leaves a valid editor.
abbrev pub Safe : Option PulseEditor → Type 0
Safe none = ⊥
Safe (some e) = IsValid e

abbrev before_of : Cells ℕ → ℕ → List ℕ
before_of b zero = []
before_of b (suc n) = b n ∷ before_of b n

abbrev behind_of : Cells ℕ → ℕ → ℕ → List ℕ
behind_of b i zero = []
behind_of b i (suc n) = b i ∷ behind_of b (i + 1) n

length-before_of : (b : Cells ℕ) (n : ℕ) → length (before_of b n) ≡ n
length-before_of b zero = refl
length-before_of b (suc n) = ap suc (length-before_of b n)

length-behind_of : (b : Cells ℕ) (i n : ℕ) → length (behind_of b i n) ≡ n
length-behind_of b i zero = refl
length-behind_of b i (suc n) = ap suc (length-behind_of b (i + 1) n)

before_of-Leads : (b : Cells ℕ) (n : ℕ) → Leads b (before_of b n)
before_of-Leads b zero = tt
before_of-Leads b (suc n) = (ap b (length-before_of b n), before_of-Leads b n)

behind_of-Spells : (b : Cells ℕ) (i n : ℕ) → Spells b i (behind_of b i n)
behind_of-Spells b i zero = tt
behind_of-Spells b i (suc n) = (refl, behind_of-Spells b (i + 1) n)

pub text_of : PulseEditor → Text
text_of e = (before_of e.buffer e.cursor, behind_of e.buffer e.cursor (e.buf_len - e.cursor))

pub IsValid-Represents : (e : PulseEditor) → IsValid e → Represents (text_of e) e
unfolding text_of
IsValid-Represents e v =
    let before = length-before_of e.buffer e.cursor in
    let behind = length-behind_of e.buffer e.cursor (e.buf_len - e.cursor) in
    record {
      cursor = sym before;
      buf_len = omega (arith, before, behind, v.inside);
      fits = omega (arith, before, behind, v.inside, v.fits);
      left = before_of-Leads e.buffer e.cursor;
      right =
          subst (λ k. Spells e.buffer k (behind_of e.buffer e.cursor (e.buf_len - e.cursor)))
            (sym before) (behind_of-Spells e.buffer e.cursor (e.buf_len - e.cursor));
    }

pub Represents-IsValid : (t : Text) (e : PulseEditor) → Represents t e → IsValid e
Represents-IsValid t e r = record {
  inside = omega (arith, r.cursor, r.buf_len);
  fits = omega (arith, r.buf_len, r.fits);
}

Turns-Safe :
    (f : PulseEditor → Option PulseEditor) (u : Text → Text)
    → ((t : Text) → Turns f t (u t))
    → (e : PulseEditor) → IsValid e
    → Safe (f e)
Turns-Safe f u turns e v =
    let (e', made, r) = turns (text_of e) e (IsValid-Represents e v) in
    subst Safe (sym made) (Represents-IsValid (u (text_of e)) e' r)

pub run_edit-Safe : (x : Edit) (e : PulseEditor) → IsValid e → Safe (run_edit x e)
run_edit-Safe x e v = Turns-Safe (run_edit x) (edited x) (run_edit-edited x) e v

pub run_move-Safe : (m : Move) (e : PulseEditor) → IsValid e → Safe (run_move m e)
run_move-Safe m e v =
    Turns-Safe (run_move m) (moved m)
      (λ t d r. let (d', made, represents, _) = run_move-moved m t d r in (d', made, represents)) e
      v

-- The line of the cursor starts at or before it.
pub line_start_within :
    (e : PulseEditor)
    → IsValid e
    → (start : ℕ) × (col : ℕ) × (get_current_line_start_and_col e ≡ some (start, col))
      × (start ≤ e.cursor)
line_start_within e v =
    let t : Text = text_of e in
    let r = IsValid-Represents e v in
    let at : ℕ = length (back_while in_line t.0 t.1).0 in
    (
      at,
      column t.0,
      subst (λ d. get_current_line_start_and_col d ≡ some (at, column t.0)) (placed-eq r)
          (start_and_col t.0 t.1 e (omega (arith, r.fits)) r.left),
      omega (arith, length-back_while t.0 t.1, r.cursor),
    )

pub scan_right_within :
    (test : ℕ → Bool) (b : Cells ℕ) (i n : ℕ)
    → i + n ≤ max_editor_buf
    → (at : ℕ) × (scan_right test b i n ≡ some at) × (i ≤ at) × (at ≤ i + n)
unfolding scan_right
scan_right_within test b i zero fits = (i, refl, omega arith, omega arith)
scan_right_within test b i (suc n) fits =
    let (at, found, low, high) = scan_right_within test b (i + 1) n (omega arith) in
    let reads : read b i ≡ some (b i) = read_lem b i (b i) (omega arith) refl in
    elim (Bool-cases (test (b i))) [
      | inl on ↦ (
        at,
        ap (λ m. m >>= λ v. if test v then scan_right test b (i + 1) n else some i) reads
            ∙ rw on found,
        omega (arith, low),
        omega (arith, high),
      )
      | inr off ↦ (
        i,
        ap (λ m. m >>= λ v. if test v then scan_right test b (i + 1) n else some i) reads ∙ rw off,
        omega arith,
        omega arith,
      )
    ]

-- a place that a search found, or the end
pub find_newline_within :
    (b : Cells ℕ) (i n : ℕ)
    → i + n ≤ max_editor_buf
    → (found : Option ℕ) × (find_newline b i n ≡ some found) × (or_end (i + n) found ≤ i + n)
unfolding find_newline
find_newline_within b i zero fits = (none, refl, omega arith)
find_newline_within b i (suc n) fits =
    let (found, made, high) = find_newline_within b (i + 1) n (omega arith) in
    let reads : read b i ≡ some (b i) = read_lem b i (b i) (omega arith) refl in
    let same : i + 1 + n ≡ i + suc n = omega arith in
    let step : find_newline b i (suc n)
        ≡ (if b i == b'\n' then some (some i) else find_newline b (i + 1) n) =
      ap (λ m. m >>= λ v. if v == b'\n' then some (some i) else find_newline b (i + 1) n) reads in
    elim (Bool-cases (b i == b'\n')) [
      | inl stop ↦ (some i, step ∙ rw stop, omega arith)
      | inr on ↦ (found, step ∙ rw on made, subst (λ k. or_end k found ≤ k) same high)
    ]

pub row_col_from_total :
    (b : Cells ℕ) (i n : ℕ) (at : ℕ × ℕ)
    → i + n ≤ max_editor_buf
    → (row : ℕ) × (col : ℕ) × (row_col_from b i n at ≡ some (row, col))
unfolding row_col_from
row_col_from_total b i zero (row, col) fits = (row, col, refl)
row_col_from_total b i (suc n) (row, col) fits =
    let (row', col', made) = row_col_from_total b (i + 1) n (past (b i) row col) (omega arith) in
    (
      row',
      col',
      ap (λ m. m >>= λ c. row_col_from b (i + 1) n (past c row col))
            (read_lem b i (b i) (omega arith) refl)
          ∙ made,
    )
