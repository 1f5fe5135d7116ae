-- ===== src/Editor/Edits.antt =====
-- The operations of kernel/src/editor.rs that change the text.
use latency_os.Prelude.{
  ℕ, zero, suc, ◌+◌, ◌-◌, ◌≡◌, refl, ◌∙◌, ap, arith, true, false, Option, none, some, List, [], ◌∷◌,
  length, Cells, subst, sym, ltb, leb, ◌==◌, if◌then◌else◌, Bool-cases, inl, inr, ltb→lt, leb→le,
}
use latency_os.Editor.Arrays.{◌>>=◌, max_editor_buf, write, move_up, copy_in}
use latency_os.Editor.{
  PulseEditor, insert_char, insert_str, delete_char_backspace, delete_char_under_cursor,
}
use latency_os.Editor.Texts.{Spells, length-push_all, inserted, cut_out}
use latency_os.Editor.Zipper.{placed, Edit, edited, TurnsPlaced}

-- Both branches of an insertion move the bytes behind the cursor, of which there may be none.
opened :
    (c by n : ℕ) (b : Cells ℕ) (k : Cells ℕ → Option PulseEditor)
    → (if c == c + n then k b else (move_up c by (c + n - c) b >>= k)) ≡ (move_up c by n b >>= k)
unfolding move_up
opened c by zero b k = let same : (c == c + 0) ≡ true = ground arith in rw same
opened c by (suc n) b k =
    let other : (c == c + suc n) ≡ false = ground arith in
    let rest : c + suc n - c ≡ suc n = omega arith in
    rw other (ap (λ m. move_up c by m b >>= k) rest)

then_some {ℓ κ μ} :
    {A : Type ℓ} {B : Type κ} {C : Type μ} (m : Option A) (f : A → Option B) (k : B → Option C)
    {r : B}
    → (m >>= f) ≡ some r
    → (m >>= λ x. f x >>= k) ≡ k r
then_some none f k e = absurd (ground arith)
then_some (some a) f k e = ap (λ m. m >>= k) e

pub insert_str-placed :
    (s before after : List ℕ)
    → TurnsPlaced (insert_str s) (before, after) (edited (Edit.pasted s) (before, after))
unfolding insert_str
insert_str-placed s before after e v =
    elim (Bool-cases (leb (length before + length after + length s) max_editor_buf)) [
      | inr full ↦ rw full (placed (before, after) e, refl, v)
      | inl room ↦
          let fits = leb→le _ _ room in
          let (r, made, left, right) =
            inserted e.buffer before s after (omega arith) v.left v.right in
          let rest : length before + length after - length before ≡ length after = omega arith in
          rw room (
            record e {
              buffer = r;
              cursor = length before + length s;
              buf_len = length before + length after + length s;
              needs_redraw = true;
            },
            opened (length before) (length s) (length after) e.buffer _
                ∙ then_some (move_up (length before) (length s) (length after) e.buffer)
                    (copy_in (length before) s) _ made,
            record {
              cursor = sym (length-push_all s before);
              buf_len = omega (arith, length-push_all s before);
              fits = omega (arith, length-push_all s before);
              left = left;
              right = subst (λ k. Spells r k after) (sym (length-push_all s before)) right;
            },
          )
    ]

copy_in_one : (start c : ℕ) (b : Cells ℕ) → write b start c ≡ copy_in start (c ∷ []) b
unfolding copy_in
copy_in_one start c b = elim (Bool-cases (ltb start max_editor_buf)) [ inl h ↦ rw h | inr h ↦ rw h ]

pub insert_char-placed :
    (c : ℕ) (before after : List ℕ)
    → TurnsPlaced (insert_char c) (before, after) (edited (Edit.typed c) (before, after))
unfolding insert_char
insert_char-placed c before after e v =
    elim (Bool-cases (ltb (length before + length after) (max_editor_buf - 1))) [
      | inr full ↦ rw full (placed (before, after) e, refl, v)
      | inl room ↦
          let fits = ltb→lt _ _ room in
          let (r, made, left, right) =
            inserted e.buffer before (c ∷ []) after (omega arith) v.left v.right in
          rw room (
            record e {
              buffer = r;
              cursor = length before + 1;
              buf_len = length before + length after + 1;
              needs_redraw = true;
            },
            opened (length before) 1 (length after) e.buffer _
                ∙ then_some (move_up (length before) 1 (length after) e.buffer)
                    (λ m. write m (length before) c) _
                    ((λ i. move_up (length before) 1 (length after) e.buffer >>= λ m.
                        copy_in_one (length before) c m i)
                      ∙ made),
            record {
              cursor = omega arith;
              buf_len = omega arith;
              fits = omega arith;
              left = left;
              right =
                  let same : length before + 1 ≡ suc (length before) = omega arith in
                  subst (λ k. Spells r k after) same right;
            },
          )
    ]

pub delete-placed :
    (before after : List ℕ)
    → TurnsPlaced delete_char_under_cursor (before, after) (edited Edit.delete (before, after))
unfolding delete_char_under_cursor
delete-placed before [] e v =
    let stop : ltb (length before) (length before + 0) ≡ false = ground arith in
    rw stop (placed (before, []) e, refl, v)
delete-placed before (x ∷ after) e v =
    let go : ltb (length before) (length before + suc (length after)) ≡ true = ground arith in
    let some_held : leb 1 (length before + suc (length after)) ≡ true = ground arith in
    let rest : length before + suc (length after) - 1 - length before ≡ length after =
      omega arith in
    let (r, made, left, right) =
      cut_out e.buffer before after 1 (omega (arith, v.fits)) v.left v.right.1 in
    rw go (
      rw some_held (
        rw rest (
          rw made (
            record e {
              buffer = r;
              buf_len = length before + suc (length after) - 1;
              cursor = length before;
              needs_redraw = true;
            },
            refl,
            record {
              cursor = refl;
              buf_len = omega arith;
              fits = omega (arith, v.fits);
              left = left;
              right = right;
            },
          ))))

pub backspace-placed :
    (before after : List ℕ)
    → TurnsPlaced delete_char_backspace (before, after) (edited Edit.backspace (before, after))
unfolding delete_char_backspace
backspace-placed [] after e v = (placed ([], after) e, refl, v)
backspace-placed (x ∷ before) after e v =
    let go : ltb 0 (suc (length before)) ≡ true = ground arith in
    let some_held : leb 1 (suc (length before) + length after) ≡ true = ground arith in
    let back : suc (length before) - 1 ≡ length before = omega arith in
    let rest : suc (length before) + length after - 1 - length before ≡ length after =
      omega arith in
    let from =
      let same : suc (length before) ≡ length before + 1 = omega arith in
      subst (λ k. Spells e.buffer k after) same v.right in
    let (r, made, left, right) =
      cut_out e.buffer before after 1 (omega (arith, v.fits)) v.left.1 from in
    rw go (
      rw some_held (
        rw (back, rest)
          (rw made (
            record e {
              buffer = r;
              buf_len = suc (length before) + length after - 1;
              cursor = length before;
              needs_redraw = true;
            },
            refl,
            record {
              cursor = refl;
              buf_len = omega arith;
              fits = omega (arith, v.fits);
              left = left;
              right = right;
            },
          ))))
