-- ===== src/Latency/Shuffle.antt =====
-- Moving the items of a part of an array among themselves, as the sort of kernel/src/latency.rs does.
use latency_os.Prelude.{
  ℕ, zero, suc, ◌+◌, ◌-◌, ◌≤◌, ◌<◌, ◌≡◌, refl, sym, ap, ◌∙◌, arith, ◌≢◌, ◌⊎◌, inl, inr, Cells,
  update, ◌==◌, if◌then◌else◌, ==_refl, ==_ne, ap₂, subst,
}
use native.Mathlib.Decide.{ℕ_discrete, dec_lt}
use latency_os.Latency.{swap}

-- how often `v` stands among the `n` items from `lo` on
abbrev is_item : ℕ → ℕ → ℕ
is_item v x = if x == v then 1 else 0

abbrev pub count : ℕ → ℕ → ℕ → Cells ℕ → ℕ
count v lo zero f = 0
count v lo (suc n) f = is_item v (f lo) + count v (suc lo) n f

count-eq :
    (v lo n : ℕ) (f g : Cells ℕ)
    → ((k : ℕ) → lo ≤ k → k < lo + n → g k ≡ f k)
    → count v lo n g ≡ count v lo n f
count-eq v lo zero f g same = refl
count-eq v lo (suc n) f g same =
    ap₂ (λ (a b : ℕ). is_item v a + b) (same lo (omega arith) (omega arith))
      (count-eq v (suc lo) n f g λ k ge lt. same k (omega arith) (omega arith))

count-split :
    (v lo a b : ℕ) (f : Cells ℕ) → count v lo (a + b) f ≡ count v lo a f + count v (lo + a) b f
count-split v lo zero b f =
    let here : lo + 0 ≡ lo = omega arith in
    let none_first : 0 + b ≡ b = omega arith in rw (here, none_first) (omega arith)
count-split v lo (suc a) b f =
    let next : suc lo + a ≡ lo + suc a = omega arith in
    let size : suc a + b ≡ suc (a + b) = omega arith in
    ap (λ (n : ℕ). count v lo n f) size
    ∙ ap (λ (c : ℕ). is_item v (f lo) + c) (count-split v (suc lo) a b f)
    ∙ ap (λ (t : ℕ). is_item v (f lo) + (count v (suc lo) a f + count v t b f)) next
    ∙ omega arith

count-update :
    (v lo n i x : ℕ) (f : Cells ℕ)
    → lo ≤ i
    → i < lo + n
    → count v lo n (update f i x) + is_item v (f i) ≡ count v lo n f + is_item v x
count-update v lo zero i x f ge lt = absurd (omega arith)
count-update v lo (suc n) i x f ge lt = elim (ℕ_discrete i lo) [
  | yes here ↦
      let rest : count v (suc lo) n (update f i x) ≡ count v (suc lo) n f =
        count-eq v (suc lo) n f (update f i x) λ k gek ltk. rw (==_ne k i (omega arith)) refl in
      let first : update f i x lo ≡ x = rw here (ground arith) in
      let old : is_item v (f i) ≡ is_item v (f lo) = ap (λ (t : ℕ). is_item v (f t)) here in
      let new : is_item v (update f i x lo) ≡ is_item v x = ap (is_item v) first in
      omega (arith, rest, old, new)
  | no later ↦
      let rest = count-update v (suc lo) n i x f (omega arith) (omega arith) in
      let ne : lo ≢ i = omega arith in
      let kept : is_item v (update f i x lo) ≡ is_item v (f lo) =
        ap (is_item v) (rw (==_ne lo i ne) refl) in
      omega (arith, rest, kept)
]

count-swap :
    (v lo n i j : ℕ) (f : Cells ℕ)
    → lo ≤ i
    → i < lo + n
    → lo ≤ j
    → j < lo + n
    → count v lo n (swap f i j) ≡ count v lo n f
count-swap v lo n i j f li ui lj uj =
    let first = count-update v lo n i (f j) f li ui in
    let second = count-update v lo n j (f i) (update f i (f j)) lj uj in
    let same : update f i (f j) j ≡ f j = elim (ℕ_discrete j i) [
      | yes e ↦ rw (ap (λ (t : ℕ). t == i) e ∙ ==_refl i) refl
      | no ne ↦ rw (==_ne j i ne) refl
    ] in
    let items : is_item v (update f i (f j) j) ≡ is_item v (f j) = ap (is_item v) same in
    omega (arith, first, second, items)

-- An item counts, and what counts is an item.
count_of_item : (lo n k : ℕ) (f : Cells ℕ) → lo ≤ k → k < lo + n → 0 < count (f k) lo n f
count_of_item lo zero k f ge lt = absurd (omega arith)
count_of_item lo (suc n) k f ge lt = elim (ℕ_discrete k lo) [
  | yes here ↦ let self : is_item (f k) (f lo) ≡ 1 = rw here (ground arith) in omega (arith, self)
  | no later ↦ omega (arith, count_of_item (suc lo) n k f (omega arith) (omega arith))
]

item_of_count :
    (v lo n : ℕ) (f : Cells ℕ) → 0 < count v lo n f → (k : ℕ) × (lo ≤ k) × (k < lo + n) × (f k ≡ v)
item_of_count v lo zero f pos = absurd (omega arith)
item_of_count v lo (suc n) f pos = elim (ℕ_discrete (f lo) v) [
  | yes here ↦ (lo, omega arith, omega arith, here)
  | no later ↦
      let other : is_item v (f lo) ≡ 0 = rw (==_ne (f lo) v later) refl in
      let (k, ge, lt, e) = item_of_count v (suc lo) n f (omega (arith, other)) in
      (k, omega arith, omega arith, e)
]

-- The items from `lo` on, `len` of them, were moved among themselves, each value as often as before;
-- nothing else changed.
pub record Shuffles (lo len : ℕ) (f f' : Cells ℕ) : Type 0 where
  pub outside : (k : ℕ) → (k < lo) ⊎ (lo + len ≤ k) → f' k ≡ f k
  pub inside :
      (k : ℕ) → lo ≤ k → k < lo + len → (k' : ℕ) × (lo ≤ k') × (k' < lo + len) × (f' k ≡ f k')
  pub counts : (v : ℕ) → count v lo len f' ≡ count v lo len f

pub Shuffles-refl : (lo len : ℕ) (f : Cells ℕ) → Shuffles lo len f f
Shuffles-refl lo len f = record {
  outside = λ k out. refl;
  inside = λ k le lt. (k, le, lt, refl);
  counts = λ v. refl;
}

pub Shuffles-trans :
    {lo len : ℕ} {f g h : Cells ℕ} → Shuffles lo len f g → Shuffles lo len g h → Shuffles lo len f h
Shuffles-trans p q = record {
  outside = λ k out. q.outside k out ∙ p.outside k out;
  inside = λ k le lt.
      let (k1, le1, lt1, e1) = q.inside k le lt in
      let (k2, le2, lt2, e2) = p.inside k1 le1 lt1 in (k2, le2, lt2, e1 ∙ e2);
  counts = λ v. q.counts v ∙ p.counts v;
}

-- The counts in the slice follow from those in the part.
count-widen :
    (v lo a len' b : ℕ) (f g : Cells ℕ)
    → Shuffles (lo + a) len' f g
    → count v lo (a + (len' + b)) g ≡ count v lo (a + (len' + b)) f
count-widen v lo a len' b f g p =
    let before : count v lo a g ≡ count v lo a f =
      count-eq v lo a f g λ k ge lt. p.outside k (inl lt) in
    let behind : count v (lo + a + len') b g ≡ count v (lo + a + len') b f =
      count-eq v (lo + a + len') b f g λ k ge lt. p.outside k (inr ge) in
    omega (
      arith,
      before,
      p.counts v,
      behind,
      count-split v lo a (len' + b) f,
      count-split v lo a (len' + b) g,
      count-split v (lo + a) len' b f,
      count-split v (lo + a) len' b g,
    )

-- moving the items of a part of the slice moves items of the slice
pub Shuffles-widen :
    {lo len lo' len' : ℕ} {f g : Cells ℕ}
    → Shuffles lo' len' f g
    → lo ≤ lo'
    → lo' + len' ≤ lo + len
    → Shuffles lo len f g
Shuffles-widen {lo} {len} {lo'} {len'} {f} {g} p below above = record {
  outside =
      λ k out. p.outside k (elim out [ inl lt ↦ inl (omega arith) | inr le ↦ inr (omega arith) ]);
  inside = λ k le lt. elim (dec_lt k lo') [
    | yes left ↦ (k, le, lt, p.outside k (inl left))
    | no not_left ↦ elim (dec_lt k (lo' + len')) [
      | yes within ↦
          let (k1, le1, lt1, e) = p.inside k (omega arith) within in
          (k1, omega arith, omega arith, e)
      | no right ↦ (k, le, lt, p.outside k (inr (omega arith)))
    ]
  ];
  counts = λ v.
      let start : lo + (lo' - lo) ≡ lo' = omega arith in
      let size : lo' - lo + (len' + (lo + len - (lo' + len'))) ≡ len = omega arith in
      subst (λ (n : ℕ). count v lo n g ≡ count v lo n f) size
        (count-widen v lo (lo' - lo) len' (lo + len - (lo' + len')) f g
          (subst (λ (t : ℕ). Shuffles t len' f g) (sym start) p));
}

swap_at :
    (f : Cells ℕ) (i j k : ℕ) → swap f i j k ≡ (if k == j then f i else if k == i then f j else f k)
swap_at f i j k = refl

pub Shuffles-swap :
    (lo len i j : ℕ) (f : Cells ℕ)
    → lo ≤ i
    → i < lo + len
    → lo ≤ j
    → j < lo + len
    → Shuffles lo len f (swap f i j)
Shuffles-swap lo len i j f li ui lj uj = record {
  outside = λ k out. elim out [
    | inl lt ↦ rw (==_ne k j (omega arith), ==_ne k i (omega arith)) refl
    | inr le ↦ rw (==_ne k j (omega arith), ==_ne k i (omega arith)) refl
  ];
  inside = λ k le lt. elim (ℕ_discrete k j) [
    | yes kj ↦ (i, li, ui, ground arith)
    | no kj ↦ elim (ℕ_discrete k i) [
      | yes ki ↦ (j, lj, uj, ground arith)
      | no ki ↦ (k, le, lt, ground arith)
    ]
  ];
  counts = λ v. count-swap v lo len i j f li ui lj uj;
}

-- Each item is still there afterwards.
pub Shuffles-item :
    {lo len : ℕ} {f g : Cells ℕ} (k : ℕ)
    → Shuffles lo len f g
    → lo ≤ k
    → k < lo + len
    → (k' : ℕ) × (lo ≤ k') × (k' < lo + len) × (g k' ≡ f k)
Shuffles-item {lo} {len} {f} {g} k p ge lt =
    item_of_count (f k) lo len g (omega (arith, p.counts (f k), count_of_item lo len k f ge lt))
