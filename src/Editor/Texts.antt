-- ===== src/Editor/Texts.antt =====
-- What the loops of kernel/src/editor.rs over its buffer do to the texts that the buffer holds.
use native.Mathlib.Decide.{dec_lt}
use latency_os.Prelude.{
  ℕ, zero, suc, ◌+◌, ◌≤◌, ◌<◌, ◌≡◌, refl, ◌∙◌, ap, arith, some, List, [], ◌∷◌, length, Cells,
  update, ==_ne, ==_refl, subst, sym, lt→ltb,
}
use latency_os.Editor.Arrays.{◌>>=◌, max_editor_buf, move_up, move_down, copy_in}

-- `xs` stands in the buffer from `i` on
abbrev pub Spells : Cells ℕ → ℕ → List ℕ → Type 0
Spells b i [] = Unit
Spells b i (x ∷ xs) = (b i ≡ x) × Spells b (i + 1) xs

pub Spells-moved :
    (b r : Cells ℕ) (i k : ℕ) (xs : List ℕ)
    → ((j j' : ℕ) → j' + i ≡ j + k → i ≤ j → j < i + length xs → r j' ≡ b j)
    → Spells b i xs
    → Spells r k xs
Spells-moved b r i k [] h s = tt
Spells-moved b r i k (x ∷ xs) h (e, s) = (
  h i k (omega arith) (omega arith) (omega arith) ∙ e,
  Spells-moved b r (i + 1) (k + 1) xs
      (λ j j' p q l. h j j' (omega arith) (omega arith) (omega arith)) s,
)

pub Spells-kept :
    (b r : Cells ℕ) (i : ℕ) (xs : List ℕ)
    → ((j : ℕ) → i ≤ j → j < i + length xs → r j ≡ b j)
    → Spells b i xs
    → Spells r i xs
Spells-kept b r i xs h s =
    Spells-moved b r i i xs (λ j j' p q l. let same : j' ≡ j = omega arith in ap r same ∙ h j q l) s

-- `xs` stands in the buffer from the start on, its last byte first.
abbrev pub Leads : Cells ℕ → List ℕ → Type 0
Leads b [] = Unit
Leads b (x ∷ xs) = (b (length xs) ≡ x) × Leads b xs

pub Leads-kept :
    (b r : Cells ℕ) (xs : List ℕ) → ((j : ℕ) → j < length xs → r j ≡ b j) → Leads b xs → Leads r xs
Leads-kept b r [] h s = tt
Leads-kept b r (x ∷ xs) h (e, s) =
    (h (length xs) (omega arith) ∙ e, Leads-kept b r xs (λ j p. h j (omega arith)) s)

-- the text `s` behind `before`, of which the last byte stands first
abbrev pub push_all : List ℕ → List ℕ → List ℕ
push_all [] before = before
push_all (x ∷ s) before = push_all s (x ∷ before)

pub length-push_all : (s before : List ℕ) → length (push_all s before) ≡ length before + length s
length-push_all [] before = omega arith
length-push_all (x ∷ s) before = omega (arith, length-push_all s (x ∷ before))

pub Leads-push_all :
    (b : Cells ℕ) (s before : List ℕ)
    → Leads b before
    → Spells b (length before) s
    → Leads b (push_all s before)
Leads-push_all b [] before left here = left
Leads-push_all b (x ∷ s) before left (e, here) =
    let same : length before + 1 ≡ suc (length before) = omega arith in
    Leads-push_all b s (x ∷ before) (e, left) (subst (λ k. Spells b k s) same here)

pub update_other : (b : Cells ℕ) (i j v : ℕ) → (j ≡ i → ⊥) → update b i v j ≡ b j
update_other b i j v ne = rw (==_ne j i ne)

pub update_self : (b : Cells ℕ) (i v : ℕ) → update b i v i ≡ v
update_self b i v = rw (==_refl i)

pub move_up_lem :
    (start by n : ℕ) (b : Cells ℕ)
    → start + n + by ≤ max_editor_buf
    → (r : Cells ℕ) × (move_up start by n b ≡ some r)
      × ((j : ℕ) → start ≤ j → j < start + n → r (j + by) ≡ b j)
      × ((j : ℕ) → j < start + by → r j ≡ b j)
      × ((j : ℕ) → start + n + by ≤ j → r j ≡ b j)
unfolding move_up
move_up_lem start by zero b room =
    (b, refl, (λ j p q. absurd (omega arith)), (λ j p. refl), (λ j p. refl))
move_up_lem start by (suc n) b room =
    let place : ℕ = start + n + by in
    let b' : Cells ℕ = update b place (b (start + n)) in
    let (r, made, moved, below, above) = move_up_lem start by n b' (omega arith) in
    (
      r,
      rw (lt→ltb (start + n) 4096 (omega arith)) (rw (lt→ltb place 4096 (omega arith)) made),
      (λ j p q. elim (dec_lt j (start + n)) [
        | yes lt ↦ moved j p lt ∙ update_other b place j (b (start + n)) (λ e. omega arith)
        | no ge ↦
            let same : j ≡ start + n = omega arith in
            let here : j + by ≡ place = omega arith in
            ap r here
            ∙ above place (omega arith)
            ∙ update_self b place (b (start + n))
            ∙ ap b (sym same)
      ]),
      (λ j p. below j p ∙ update_other b place j (b (start + n)) (λ e. omega arith)),
      (λ j p. above j (omega arith) ∙ update_other b place j (b (start + n)) (λ e. omega arith)),
    )

pub move_down_lem :
    (start by n : ℕ) (b : Cells ℕ)
    → start + n + by ≤ max_editor_buf
    → (r : Cells ℕ) × (move_down start by n b ≡ some r)
      × ((j : ℕ) → start ≤ j → j < start + n → r j ≡ b (j + by))
      × ((j : ℕ) → j < start → r j ≡ b j)
unfolding move_down
move_down_lem start by zero b room = (b, refl, (λ j p q. absurd (omega arith)), (λ j p. refl))
move_down_lem start by (suc n) b room =
    let b' : Cells ℕ = update b start (b (start + by)) in
    let (r, made, moved, below) = move_down_lem (start + 1) by n b' (omega arith) in
    (
      r,
      rw (lt→ltb (start + by) 4096 (omega arith)) (rw (lt→ltb start 4096 (omega arith)) made),
      (λ j p q. elim (dec_lt start j) [
        | yes lt ↦
            moved j (omega arith) (omega arith)
            ∙ update_other b start (j + by) (b (start + by)) (λ e. omega arith)
        | no ge ↦
            let same : j ≡ start = omega arith in
            ap r same
            ∙ below start (omega arith)
            ∙ update_self b start (b (start + by))
            ∙ ap (λ k. b (k + by)) (sym same)
      ]),
      (λ j p. below j (omega arith) ∙ update_other b start j (b (start + by)) (λ e. omega arith)),
    )

pub copy_in_lem :
    (start : ℕ) (xs : List ℕ) (b : Cells ℕ)
    → start + length xs ≤ max_editor_buf
    → (r : Cells ℕ) × (copy_in start xs b ≡ some r)
      × Spells r start xs
      × ((j : ℕ) → j < start → r j ≡ b j)
      × ((j : ℕ) → start + length xs ≤ j → r j ≡ b j)
unfolding copy_in
copy_in_lem start [] b room = (b, refl, tt, (λ j p. refl), (λ j p. refl))
copy_in_lem start (x ∷ xs) b room =
    let b' : Cells ℕ = update b start x in
    let (r, made, spelled, below, above) = copy_in_lem (start + 1) xs b' (omega arith) in
    (
      r,
      rw (lt→ltb start 4096 (omega arith)) made,
      (below start (omega arith) ∙ update_self b start x, spelled),
      (λ j p. below j (omega arith) ∙ update_other b start j x (λ e. omega arith)),
      (λ j p. above j (omega arith) ∙ update_other b start j x (λ e. omega arith)),
    )

-- A text goes between two others.
pub inserted :
    (b : Cells ℕ) (before s after : List ℕ)
    → length before + length s + length after ≤ max_editor_buf
    → Leads b before
    → Spells b (length before) after
    → (r : Cells ℕ) × ((move_up (length before) (length s) (length after) b >>= λ moved.
          copy_in (length before) s moved)
        ≡ some r)
      × Leads r (push_all s before)
      × Spells r (length before + length s) after
inserted b before s after room left right =
    let (m, made, moved, below, _) =
      move_up_lem (length before) (length s) (length after) b (omega arith) in
    let (r, copied, spelled, kept, above) = copy_in_lem (length before) s m (omega arith) in
    (
      r,
      rw made copied,
      Leads-push_all r s before
          (Leads-kept b r before (λ j p. kept j (omega arith) ∙ below j (omega arith)) left)
          spelled,
      Spells-moved b r (length before) (length before + length s) after
          (λ j j' p q l.
            let same : j' ≡ j + length s = omega arith in
            ap r same ∙ above (j + length s) (omega arith) ∙ moved j q l)
          right,
    )

-- The `by` bytes between two texts go.
pub cut_out :
    (b : Cells ℕ) (before after : List ℕ) (by : ℕ)
    → length before + by + length after ≤ max_editor_buf
    → Leads b before
    → Spells b (length before + by) after
    → (r : Cells ℕ) × (move_down (length before) by (length after) b ≡ some r)
      × Leads r before
      × Spells r (length before) after
cut_out b before after by room left right =
    let (r, made, moved, below) = move_down_lem (length before) by (length after) b (omega arith) in
    (
      r,
      made,
      Leads-kept b r before (λ j p. below j p) left,
      Spells-moved b r (length before + by) (length before) after
          (λ j j' p q l.
            let same : j' + by ≡ j = omega arith in
            moved j' (omega arith) (omega arith) ∙ ap b same)
          right,
    )
