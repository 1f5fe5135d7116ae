-- ===== src/Editor/KeyParts.antt =====
-- What the keys of kernel/src/editor.rs do, each part by itself: it keeps the editor valid.
use latency_os.Prelude.{
  ℕ, zero, suc, ◌+◌, ◌-◌, ◌≤◌, ◌≡◌, refl, arith, Bool, not, Option, none, some, subst, ltb, ◌==◌,
  if◌then◌else◌, Bool-cases, inl, inr, ltb→lt,
}
use latency_os.Editor.Arrays.{◌>>=◌, minus}
use latency_os.Editor.{PulseEditor, set_status}
use latency_os.Editor.Texts.{move_down_lem}
use latency_os.Editor.Scans.{read_lem}
use latency_os.Editor.Commands.{
  save_file, times, step_right, step_left, to_line_start, to_line_end, past_newline,
  cut_current_line,
}
use latency_os.Editor.Valid.{
  IsValid, Safe, line_start_within, scan_right_within, find_newline_within,
}
use latency_os.Editor.Painting.{or_end}

pub save_file-IsValid : (done : Bool) (e : PulseEditor) → IsValid e → IsValid (save_file done e)
unfolding save_file set_status
save_file-IsValid done e v = record { inside = v.inside; fits = v.fits }

pub Safe-bind :
    (m : Option PulseEditor) (f : PulseEditor → Option PulseEditor)
    → Safe m
    → ((e : PulseEditor) → IsValid e → Safe (f e))
    → Safe (m >>= f)
Safe-bind none f s keeps = s
Safe-bind (some e) f s keeps = keeps e s

pub times-Safe :
    (n : ℕ) (f : PulseEditor → Option PulseEditor)
    → ((e : PulseEditor) → IsValid e → Safe (f e))
    → (e : PulseEditor) → IsValid e
    → Safe (times n f e)
unfolding times
times-Safe zero f keeps e v = v
times-Safe (suc n) f keeps e v = Safe-bind (f e) (times n f) (keeps e v) (times-Safe n f keeps)

pub step_right-Safe : (e : PulseEditor) → IsValid e → Safe (step_right e)
unfolding step_right
step_right-Safe e v = ground (arith, v.inside, v.fits)

pub step_left-Safe : (e : PulseEditor) → IsValid e → Safe (step_left e)
unfolding step_left
step_left-Safe e v = ground (arith, v.inside, v.fits)

pub to_line_start-Safe : (e : PulseEditor) → IsValid e → Safe (to_line_start e)
unfolding to_line_start
to_line_start-Safe e v =
    let (start, col, made, low) = line_start_within e v in
    rw made (record { inside = omega (arith, v.inside); fits = v.fits })

pub to_line_end-Safe : (e : PulseEditor) → IsValid e → Safe (to_line_end e)
unfolding to_line_end
to_line_end-Safe e v =
    let (start, col, made, low) = line_start_within e v in
    let (found, seen, high) =
      find_newline_within e.buffer start (e.buf_len - start) (omega (arith, v.inside, v.fits)) in
    let whole : start + (e.buf_len - start) ≡ e.buf_len = omega (arith, v.inside) in
    rw made
      (rw seen (record { inside = subst (λ k. or_end k found ≤ k) whole high; fits = v.fits }))

past_newline_within :
    (e : PulseEditor) (at : ℕ)
    → IsValid e
    → at ≤ e.buf_len
    → (end : ℕ) × (past_newline e at ≡ some end) × (at ≤ end) × (end ≤ e.buf_len)
past_newline_within e at v low = elim (Bool-cases (ltb at e.buf_len)) [
  | inr stop ↦ (at, rw stop, omega arith, low)
  | inl on ↦
      let lt = ltb→lt at e.buf_len on in
      let reads = read_lem e.buffer at (e.buffer at) (omega (arith, v.fits)) refl in
      let end : ℕ = if e.buffer at == b'\n' then at + 1 else at in
      (end, rw on (rw reads), ground arith, ground arith)
]

pub cut_current_line-Safe : (e : PulseEditor) → IsValid e → Safe (cut_current_line e)
unfolding cut_current_line
cut_current_line-Safe e v =
    let (start, col, made, low) = line_start_within e v in
    let (at, seen, after_start, high) =
      scan_right_within (λ c. not (c == b'\n')) e.buffer start (e.buf_len - start)
        (omega (arith, v.inside, v.fits)) in
    let (end, stepped, behind, within) = past_newline_within e at v (omega (arith, v.inside)) in
    let count : minus end start ≡ some (end - start) = ground arith in
    let rest : minus e.buf_len (end - start) ≡ some (e.buf_len - (end - start)) = ground arith in
    let (r, cut, _, _) =
      move_down_lem start (end - start) (e.buf_len - (end - start) - start) e.buffer
        (omega (arith, v.fits)) in
    rw made (
      rw seen (
        rw stepped (
          rw count (elim (Bool-cases (ltb 0 (end - start))) [
            | inr empty ↦ rw empty v
            | inl some_held ↦
                rw some_held
                  (rw rest (rw cut (record { inside = omega arith; fits = omega (arith, v.fits) })))
          ]))))
