-- ===== src/Editor/Scans.antt =====
-- What the searches of kernel/src/editor.rs find, on the bytes before and behind the cursor.
use latency_os.Prelude.{
  ℕ, zero, suc, ◌+◌, ◌≤◌, ◌<◌, ◌≡◌, refl, ◌∙◌, ap, arith, Bool, true, Option, none, some, List, [],
  ◌∷◌, length, Cells, subst, ◌==◌, if◌then◌else◌, Bool-cases, inl, inr, lt→ltb,
}
use latency_os.Editor.Arrays.{
  ◌>>=◌, max_editor_buf, read, scan_left, scan_right, line_start_from, find_newline,
}
use latency_os.Editor.Lines.{smaller}
use latency_os.Editor.Texts.{Spells, Leads}
use latency_os.Editor.Zipper.{Text, back_while, forth_while, forth_in_line, in_line, column}

-- The buffer holds the two parts of a text of `n` bytes.
pub record Holds (b : Cells ℕ) (n : ℕ) (t : Text) : Type 0 where
  pub left : Leads b t.0
  pub right : Spells b (length t.0) t.1
  pub whole : length t.0 + length t.1 ≡ n

pub step_back :
    (b : Cells ℕ) (n x : ℕ) (before after : List ℕ)
    → Holds b n (x ∷ before, after)
    → Holds b n (before, x ∷ after)
step_back b n x before after h =
    let same : suc (length before) ≡ length before + 1 = omega arith in
    record {
      left = h.left.1;
      right = (h.left.0, subst (λ k. Spells b k after) same h.right);
      whole = omega (arith, h.whole);
    }

pub step_forth :
    (b : Cells ℕ) (n x : ℕ) (before after : List ℕ)
    → Holds b n (before, x ∷ after)
    → Holds b n (x ∷ before, after)
step_forth b n x before after h =
    let same : length before + 1 ≡ suc (length before) = omega arith in
    record {
      left = (h.right.0, h.left);
      right = subst (λ k. Spells b k after) same h.right.1;
      whole = omega (arith, h.whole);
    }

-- Going through a text leaves it as it is.
pub back_while-Holds :
    (test : ℕ → Bool) (b : Cells ℕ) (n : ℕ) (before after : List ℕ)
    → Holds b n (before, after)
    → Holds b n (back_while test before after)
back_while-Holds test b n [] after h = h
back_while-Holds test b n (x ∷ before) after h = elim (Bool-cases (test x)) [
  | inl on ↦ rw on (back_while-Holds test b n before (x ∷ after) (step_back b n x before after h))
  | inr off ↦ rw off h
]

pub forth_while-Holds :
    (test : ℕ → Bool) (b : Cells ℕ) (n : ℕ) (before after : List ℕ)
    → Holds b n (before, after)
    → Holds b n (forth_while test before after)
forth_while-Holds test b n before [] h = h
forth_while-Holds test b n before (x ∷ after) h = elim (Bool-cases (test x)) [
  | inl on ↦ rw on (forth_while-Holds test b n (x ∷ before) after (step_forth b n x before after h))
  | inr off ↦ rw off h
]

pub forth_in_line-Holds :
    (col : ℕ) (b : Cells ℕ) (n : ℕ) (before after : List ℕ)
    → Holds b n (before, after)
    → Holds b n (forth_in_line col before after)
forth_in_line-Holds zero b n before after h = h
forth_in_line-Holds (suc col) b n before [] h = h
forth_in_line-Holds (suc col) b n before (x ∷ after) h = elim (Bool-cases (x == b'\n')) [
  | inl stop ↦ rw stop h
  | inr on ↦
      rw on (forth_in_line-Holds col b n (x ∷ before) after (step_forth b n x before after h))
]

pub read_lem : (b : Cells ℕ) (i x : ℕ) → i < max_editor_buf → b i ≡ x → read b i ≡ some x
read_lem b i x lt e = rw (lt→ltb i 4096 lt) (ap some e)

pub scan_left_lem :
    (test : ℕ → Bool) (b : Cells ℕ) (before after : List ℕ)
    → length before ≤ max_editor_buf
    → Leads b before
    → scan_left test b (length before) ≡ some (length (back_while test before after).0)
unfolding scan_left
scan_left_lem test b [] after fits h = refl
scan_left_lem test b (x ∷ before) after fits (e, h) =
    ap
      (λ r.
        r >>= λ v. if test v then scan_left test b (length before) else some (suc (length before)))
      (read_lem b (length before) x (omega arith) e)
    ∙ elim (Bool-cases (test x)) [
      | inl on ↦ rw on (scan_left_lem test b before (x ∷ after) (omega arith) h)
      | inr off ↦ rw off
    ]

pub scan_right_lem :
    (test : ℕ → Bool) (b : Cells ℕ) (before after : List ℕ)
    → length before + length after ≤ max_editor_buf
    → Spells b (length before) after
    → scan_right test b (length before) (length after)
      ≡ some (length (forth_while test before after).0)
unfolding scan_right
scan_right_lem test b before [] fits h = refl
scan_right_lem test b before (x ∷ after) fits (e, h) =
    let same : length before + 1 ≡ suc (length before) = omega arith in
    ap
      (λ r. r >>= λ v.
        if test v
        then scan_right test b (length before + 1) (length after)
        else some (length before))
      (read_lem b (length before) x (omega arith) e)
    ∙ elim (Bool-cases (test x)) [
      | inl on ↦ rw on (
          ap (λ k. scan_right test b k (length after)) same
          ∙ scan_right_lem test b (x ∷ before) after (omega arith)
              (subst (λ k. Spells b k after) same h))
      | inr off ↦ rw off
    ]

pub line_start_from_lem :
    (b : Cells ℕ) (before after : List ℕ)
    → length before ≤ max_editor_buf
    → Leads b before
    → line_start_from b (length before) ≡ some (length (back_while in_line before after).0)
unfolding line_start_from
line_start_from_lem b [] after fits h = refl
line_start_from_lem b (x ∷ before) after fits (e, h) =
    let same : length before + 1 ≡ suc (length before) = omega arith in
    ap
      (λ r. r >>= λ v.
        if v == b'\n' then some (length before + 1) else line_start_from b (length before))
      (read_lem b (length before) x (omega arith) e)
    ∙ elim (Bool-cases (x == b'\n')) [
      | inl stop ↦ rw stop (ap some same)
      | inr on ↦ rw on (line_start_from_lem b before (x ∷ after) (omega arith) h)
    ]

-- where a search forward stopped, if it did before the end
abbrev pub found : Text → Option ℕ
found (before, []) = none
found (before, _ ∷ _) = some (length before)

pub find_newline_lem :
    (b : Cells ℕ) (before after : List ℕ)
    → length before + length after ≤ max_editor_buf
    → Spells b (length before) after
    → find_newline b (length before) (length after)
      ≡ some (found (forth_while in_line before after))
unfolding find_newline
find_newline_lem b before [] fits h = refl
find_newline_lem b before (x ∷ after) fits (e, h) =
    let same : length before + 1 ≡ suc (length before) = omega arith in
    ap
      (λ r. r >>= λ v.
        if v == b'\n'
        then some (some (length before))
        else find_newline b (length before + 1) (length after))
      (read_lem b (length before) x (omega arith) e)
    ∙ elim (Bool-cases (x == b'\n')) [
      | inl stop ↦ rw stop
      | inr on ↦ rw on (
          ap (λ k. find_newline b k (length after)) same
          ∙ find_newline_lem b (x ∷ before) after (omega arith)
              (subst (λ k. Spells b k after) same h))
    ]

-- The bytes up to the end of the line.
abbrev pub line_length : List ℕ → ℕ
line_length [] = 0
line_length (x ∷ after) = if x == b'\n' then 0 else suc (line_length after)

pub length-back_while :
    (before after : List ℕ)
    → length before ≡ length (back_while in_line before after).0 + column before
length-back_while [] after = refl
length-back_while (x ∷ before) after = elim (Bool-cases (x == b'\n')) [
  | inl stop ↦ rw stop (omega arith)
  | inr on ↦ rw on (omega (arith, length-back_while before (x ∷ after)))
]

pub line_length-back_while :
    (before after : List ℕ)
    → line_length (back_while in_line before after).1 ≡ column before + line_length after
line_length-back_while [] after = omega arith
line_length-back_while (x ∷ before) after = elim (Bool-cases (x == b'\n')) [
  | inl stop ↦ rw stop (omega arith)
  | inr on ↦ rw on (line_length-back_while before (x ∷ after) ∙ rw on (omega arith))
]

-- A search that stops before the end stops at a byte that fails the test.
pub back_while-stop :
    (before after above rest : List ℕ) (x : ℕ)
    → back_while in_line before after ≡ (x ∷ above, rest)
    → (x == b'\n') ≡ true
back_while-stop [] after above rest x e = absurd (ground arith)
back_while-stop (y ∷ before) after above rest x e = elim (Bool-cases (y == b'\n')) [
  | inl stop ↦ ground arith
  | inr on ↦ back_while-stop before (y ∷ after) above rest x (ground arith)
]

pub length-forth_in_line :
    (col : ℕ) (before after : List ℕ)
    → length (forth_in_line col before after).0 ≡ length before + smaller col (line_length after)
length-forth_in_line zero before after = ground arith
length-forth_in_line (suc col) before [] = ground arith
length-forth_in_line (suc col) before (x ∷ after) =
    ground (arith, length-forth_in_line col (x ∷ before) after)

pub length-forth_while :
    (before after : List ℕ)
    → length (forth_while in_line before after).0 ≡ length before + line_length after
length-forth_while before [] = omega arith
length-forth_while before (x ∷ after) = ground (arith, length-forth_while (x ∷ before) after)
