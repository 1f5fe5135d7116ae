-- ===== src/Editor/KillForward.antt =====
-- `kill_line_forward` of kernel/src/editor.rs, against the edit of a text.
use latency_os.Prelude.{
  ℕ, suc, ◌+◌, ◌-◌, ◌<◌, ◌≡◌, refl, ◌∙◌, ap, arith, Bool, true, false, ◌&&◌, Option, some, List, [],
  ◌∷◌, length, Cells, subst, ltb, leb, ◌==◌, if◌then◌else◌, Bool-cases, inl, inr, lt→ltb,
}
use latency_os.Editor.Arrays.{◌>>=◌, read, minus, move_down, scan_right}
use latency_os.Editor.{PulseEditor}
use latency_os.Editor.Lines.{kill_line_forward, cut_forward}
use latency_os.Editor.Texts.{Spells}
use latency_os.Editor.Zipper.{in_line, from_line_end, Represents, placed, TurnsPlaced, Edit, edited}
use latency_os.Editor.Scans.{read_lem, scan_right_lem, line_length, length-forth_while}
use latency_os.Editor.Kills.{cut-Represents}

from_line_end-Spells :
    (b : Cells ℕ) (i : ℕ) (after : List ℕ)
    → Spells b i after
    → Spells b (i + line_length after) (from_line_end after)
from_line_end-Spells b i [] s = tt
from_line_end-Spells b i (x ∷ after) (e, s) =
    let same : i + 1 + line_length after ≡ i + suc (line_length after) = omega arith in
    let here : i ≡ i + 0 = omega arith in
    elim (Bool-cases (x == b'\n')) [
      | inl stop ↦ rw stop (subst (λ k. Spells b k (x ∷ after)) here (e, s))
      | inr on ↦ rw on (
          subst (λ k. Spells b k (from_line_end after)) same
            (from_line_end-Spells b (i + 1) after s))
    ]

length-from_line_end :
    (after : List ℕ) → length after ≡ line_length after + length (from_line_end after)
length-from_line_end [] = refl
length-from_line_end (x ∷ after) = elim (Bool-cases (x == b'\n')) [
  | inl stop ↦ rw stop (omega arith)
  | inr on ↦ rw on (omega (arith, length-from_line_end after))
]

cut_forward-placed :
    (before after after' : List ℕ) (by : ℕ) (e : PulseEditor)
    → Represents (before, after) (placed (before, after) e)
    → 0 < by
    → length after ≡ by + length after'
    → Spells e.buffer (length before + by) after'
    → (e' : PulseEditor) × (cut_forward (placed (before, after) e) (length before + by) ≡ some e')
      × Represents (before, after') e'
cut_forward-placed before after after' by e v pos size right =
    let n = length before + length after in
    let (e', cut, represents) =
      cut-Represents before after' n by e (omega (arith, size)) v.fits v.left right in
    let count : minus (length before + by) (length before) ≡ some by = ground arith in
    let body : ℕ → Option PulseEditor = λ (c : ℕ). minus n c >>= λ rest.
    move_down (length before) c (rest - length before) e.buffer >>= λ b.
    some (record e { buffer = b; buf_len = rest; cursor = length before; needs_redraw = true }) in
    (
      e',
      ap (λ m. m >>= λ c. if ltb 0 c then body c else some (placed (before, after) e)) count
          ∙ ap (λ (b : Bool). if b then body by else some (placed (before, after) e))
              (lt→ltb 0 by pos)
          ∙ cut,
      represents,
    )

-- `kill_line_forward` behind its search for the end of the line
abbrev cut_at : PulseEditor → ℕ → Option PulseEditor
cut_at e line_end =
    if line_end == e.cursor && ltb line_end e.buf_len
    then (read e.buffer line_end >>= λ c.
        cut_forward e (if c == b'\n' then line_end + 1 else line_end))
    else cut_forward e line_end

kill_line_forward-cut_at :
    (before after : List ℕ) (x : ℕ) (e : PulseEditor)
    → Represents (before, x ∷ after) (placed (before, x ∷ after) e)
    → kill_line_forward (placed (before, x ∷ after) e)
      ≡ cut_at (placed (before, x ∷ after) e) (length before + line_length (x ∷ after))
unfolding kill_line_forward
kill_line_forward-cut_at before after x e v =
    let n = length before + suc (length after) in
    let p : PulseEditor = placed (before, x ∷ after) e in
    let go : leb n (length before) ≡ false = ground arith in
    let rest : n - length before ≡ suc (length after) = omega arith in
    ap
      (λ (b : Bool).
        if b
        then some p
        else (scan_right in_line e.buffer (length before) (n - length before) >>= cut_at p))
      go
    ∙ ap (λ (k : ℕ). scan_right in_line e.buffer (length before) k >>= cut_at p) rest
    ∙ ap (λ m. m >>= cut_at p) (scan_right_lem in_line e.buffer before (x ∷ after) v.fits v.right)
    ∙ ap (cut_at p) (length-forth_while before (x ∷ after))

-- The cursor is on a newline: it goes.
cut_newline :
    (before after : List ℕ) (x : ℕ) (e : PulseEditor)
    → Represents (before, x ∷ after) (placed (before, x ∷ after) e)
    → (x == b'\n') ≡ true
    → (e' : PulseEditor) × (cut_at
          (placed (before, x ∷ after) e)
          (length before + line_length (x ∷ after))
        ≡ some e')
      × Represents (before, after) e'
cut_newline before after x e v stop =
    let n = length before + suc (length after) in
    let p : PulseEditor = placed (before, x ∷ after) e in
    let here : length before + line_length (x ∷ after) ≡ length before = rw stop (omega arith) in
    let at_newline : (length before == length before && ltb (length before) n) ≡ true =
      ground arith in
    let cut_behind : Bool → Option PulseEditor =
      λ b. cut_forward p (if b then length before + 1 else length before) in
    let (e', cut, represents) =
      cut_forward-placed before (x ∷ after) after 1 e v (omega arith) (omega arith) v.right.1 in
    (
      e',
      ap (cut_at p) here
          ∙ ap
              (λ (b : Bool).
                if b
                then (read e.buffer (length before) >>= λ c. cut_behind (c == b'\n'))
                else cut_forward p (length before))
              at_newline
          ∙ ap (λ m. m >>= λ c. cut_behind (c == b'\n'))
              (read_lem e.buffer (length before) x (omega (arith, v.fits)) v.right.0)
          ∙ ap cut_behind stop
          ∙ cut,
      represents,
    )

-- The cursor is before the end of its line: the rest of the line goes.
cut_line :
    (before after : List ℕ) (x : ℕ) (e : PulseEditor)
    → Represents (before, x ∷ after) (placed (before, x ∷ after) e)
    → (x == b'\n') ≡ false
    → (e' : PulseEditor) × (cut_at
          (placed (before, x ∷ after) e)
          (length before + line_length (x ∷ after))
        ≡ some e')
      × Represents (before, from_line_end (x ∷ after)) e'
cut_line before after x e v on =
    let n = length before + suc (length after) in
    let p : PulseEditor = placed (before, x ∷ after) e in
    let line_end : ℕ = length before + line_length (x ∷ after) in
    let by : line_length (x ∷ after) ≡ suc (line_length after) = rw on in
    let behind : (line_end == length before && ltb line_end n) ≡ false = ground (arith, by) in
    let (e', cut, represents) =
      cut_forward-placed before (x ∷ after) (from_line_end (x ∷ after)) (line_length (x ∷ after)) e
        v (omega (arith, by)) (length-from_line_end (x ∷ after))
        (from_line_end-Spells e.buffer (length before) (x ∷ after) v.right) in
    (
      e',
      ap
            (λ (b : Bool).
              if b
              then (read e.buffer line_end >>= λ c.
                  cut_forward p (if c == b'\n' then line_end + 1 else line_end))
              else cut_forward p line_end)
            behind
          ∙ cut,
      represents,
    )

pub kill_forward-placed :
    (before after : List ℕ)
    → TurnsPlaced kill_line_forward (before, after) (edited Edit.kill_forward (before, after))
unfolding kill_line_forward
kill_forward-placed before [] e v =
    let stop : leb (length before + 0) (length before) ≡ true = ground arith in
    rw stop (placed (before, []) e, refl, v)
kill_forward-placed before (x ∷ after) e v =
    let reaches = kill_line_forward-cut_at before after x e v in
    elim (Bool-cases (x == b'\n')) [
      | inl stop ↦
          let (e', cut, represents) = cut_newline before after x e v stop in
          rw stop (e', reaches ∙ cut, represents)
      | inr on ↦
          let (e', cut, represents) = cut_line before after x e v on in
          (e', reaches ∙ cut, subst (λ r. Represents (before, r) e') (rw on) represents)
    ]
