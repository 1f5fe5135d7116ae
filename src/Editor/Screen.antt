-- ===== src/Editor/Screen.antt =====
-- The row and the column of the cursor in kernel/src/editor.rs, and the lines that are shown.
use latency_os.Prelude.{
  ℕ, zero, suc, ◌+◌, ◌≤◌, ◌<◌, ◌≡◌, refl, ◌-◌, ltb, leb, none, ◌∙◌, ap, arith, Bool, false, not,
  some, List, [], ◌∷◌, length, Cells, ◌==◌, if◌then◌else◌, Option, ◌↔◌,
}
use latency_os.Lexer.Places.{newlines}
use latency_os.Editor.Arrays.{◌>>=◌, max_editor_buf, read}
use latency_os.Editor.{PulseEditor}
use latency_os.Editor.Lines.{past, row_col_from, get_row_col, adjust_scroll}
use latency_os.Editor.Texts.{Leads}
use latency_os.Editor.Zipper.{Text, Represents}
use latency_os.Editor.Scans.{read_lem}

>>=_assoc {ℓ κ μ} :
    {A : Type ℓ} {B : Type κ} {C : Type μ} (m : Option A) (f : A → Option B) (g : B → Option C)
    → (m >>= λ a. f a >>= g) ≡ (m >>= f >>= g)
>>=_assoc none f g = refl
>>=_assoc (some a) f g = refl

-- one more byte, at the end of the walk
row_col_from-snoc :
    (b : Cells ℕ) (i n : ℕ) (at : ℕ × ℕ)
    → row_col_from b i (suc n) at
      ≡ (row_col_from b i n at >>= λ p. read b (i + n) >>= λ c. some (past c p.0 p.1))
unfolding row_col_from
row_col_from-snoc b i zero (row, col) =
    let same : i ≡ i + 0 = omega arith in
    ap (λ (k : ℕ). read b k >>= λ c. some (past c row col)) same
row_col_from-snoc b i (suc n) (row, col) =
    let same : i + 1 + n ≡ i + suc n = omega arith in
    (λ k. read b i >>= λ c. row_col_from-snoc b (i + 1) n (past c row col) k)
    ∙ >>=_assoc (read b i) (λ c. row_col_from b (i + 1) n (past c row col))
        (λ p. read b (i + 1 + n) >>= λ c. some (past c p.0 p.1))
    ∙ ap
        (λ (j : ℕ).
          row_col_from b i (suc n) (row, col) >>= λ p. read b j >>= λ c. some (past c p.0 p.1))
        same

-- The column behind a text, of which the last byte stands first. A tab counts as four.
abbrev pub width : List ℕ → ℕ
width [] = 1
width (x ∷ before) =
    if x == b'\n' then 1 else if x == b'\t' then width before + 4 else width before + 1

past-newlines :
    (x : ℕ) (before : List ℕ)
    → past x (suc (newlines before)) (width before)
      ≡ (suc (newlines (x ∷ before)), width (x ∷ before))
past-newlines x before = ground arith

row_col_from-newlines :
    (b : Cells ℕ) (before : List ℕ)
    → length before ≤ max_editor_buf
    → Leads b before
    → row_col_from b 0 (length before) (1, 1) ≡ some (suc (newlines before), width before)
unfolding row_col_from
row_col_from-newlines b [] fits h = refl
row_col_from-newlines b (x ∷ before) fits (e, h) =
    let here : 0 + length before ≡ length before = omega arith in
    let p : ℕ × ℕ = (suc (newlines before), width before) in
    row_col_from-snoc b 0 (length before) (1, 1)
    ∙ ap (λ m. m >>= λ q. read b (0 + length before) >>= λ c. some (past c q.0 q.1))
        (row_col_from-newlines b before (omega arith) h)
    ∙ ap (λ (j : ℕ). read b j >>= λ c. some (past c p.0 p.1)) here
    ∙ ap (λ m. m >>= λ c. some (past c p.0 p.1)) (read_lem b (length before) x (omega arith) e)
    ∙ ap some (past-newlines x before)

pub get_row_col-newlines :
    (t : Text) (e : PulseEditor)
    → Represents t e
    → get_row_col e ≡ some (suc (newlines t.0), width t.0)
unfolding get_row_col
get_row_col-newlines t e v =
    ap (λ (n : ℕ). row_col_from e.buffer 0 n (1, 1)) v.cursor
    ∙ row_col_from-newlines e.buffer t.0 (omega (arith, v.fits)) v.left

-- The row of the cursor is one more than the number of line ends before it, and its column one more
-- than the number of bytes since the last one, where a tab counts as four. `adjust_scroll` brings
-- that row among the 21 lines from the top line on, changes nothing else, and says whether the top
-- line is another than before.
pub adjust_scroll-newlines :
    (t : Text) (e : PulseEditor)
    → Represents t e
    → (get_row_col e ≡ some (suc (newlines t.0), width t.0))
      × ((top : ℕ) × (changed : Bool) × (adjust_scroll e
            ≡ some (record e { top_line = top }, changed))
          × (top ≤ suc (newlines t.0))
          × (suc (newlines t.0) < top + 21)
          × (0 < top)
          × ((changed ≡ false) ↔ (top ≡ e.top_line)))
unfolding adjust_scroll
adjust_scroll-newlines t e v =
    let at = get_row_col-newlines t e v in
    let row = suc (newlines t.0) in
    let top : ℕ = if e.top_line == 0 then 1 else e.top_line in
    let moved : ℕ = if ltb row top then row else if leb (top + 21) row then row - 21 + 1 else top in
    (
      at,
      (
        moved,
        not (moved == e.top_line),
        rw at,
        ground arith,
        ground arith,
        ground arith,
        ((λ h. ground arith), (λ h. ground arith)),
      ),
    )
