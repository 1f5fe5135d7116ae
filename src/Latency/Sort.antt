-- ===== src/Latency/Sort.antt =====
-- `quicksort_u32` and the percentiles of kernel/src/latency.rs.
use latency_os.Prelude.{
  ℕ, zero, suc, ◌+◌, ◌-◌, ◌/◌, ◌≤◌, ◌<◌, ◌≡◌, ap, ◌∙◌, arith, inl, inr, Cells, Bool-cases, leb,
  subst,
}
use native.Mathlib.Decide.{ℕ_discrete, dec_lt}
use latency_os.Latency.{partition, quicksort_u32, stats_of, compute_stage_stats}
use latency_os.Latency.Shuffle.{
  Shuffles, Shuffles-refl, Shuffles-trans, Shuffles-widen, Shuffles-item,
}
use latency_os.Latency.Partition.{IsParted, partition-IsParted}

-- The items from `lo` on, `len` of them, are in order.
abbrev pub IsSorted : ℕ → ℕ → Cells ℕ → Type 0
IsSorted lo len f = (a b : ℕ) → lo ≤ a → a ≤ b → b < lo + len → f a ≤ f b

-- Sorting the two parts on either side of the pivot sorts the whole.
module _ (lo len p : ℕ) (f g h : Cells ℕ) (parted : IsParted lo len p f) (left : Shuffles lo p f g)
    (right : Shuffles (lo + p + 1) (len - (p + 1)) g h) (left_sorted : IsSorted lo p g)
    (right_sorted : IsSorted (lo + p + 1) (len - (p + 1)) h) where
  left_kept : (k : ℕ) → k < lo + p + 1 → h k ≡ g k
  left_kept k lt = right.outside k (inl lt)

  at_pivot : h (lo + p) ≡ f (lo + p)
  at_pivot = left_kept (lo + p) (omega arith) ∙ left.outside (lo + p) (inr (omega arith))

  left_of : (k : ℕ) → lo ≤ k → k < lo + p → h k ≤ f (lo + p)
  left_of k ge lt =
      let (k', ge', lt', e) = left.inside k ge lt in
      omega (arith, left_kept k (omega arith), e, parted.before k' ge' lt')

  right_of : (k : ℕ) → lo + p < k → k < lo + len → f (lo + p) ≤ h k
  right_of k gt lt =
      let (k', ge', lt', e) = right.inside k (omega arith) (omega (arith, parted.place)) in
      let same : g k' ≡ f k' = left.outside k' (inr (omega arith)) in
      omega (arith, e, same, parted.behind k' (omega arith) (omega (arith, parted.place)))

  parts-IsSorted : IsSorted lo len h
  parts-IsSorted a b ge le lt = elim (dec_lt b (lo + p)) [
    | yes both_left ↦ omega (
      arith,
      left_kept a (omega arith),
      left_kept b (omega arith),
      left_sorted a b ge le both_left,
    )
    | no b_not ↦ elim (dec_lt a (lo + p)) [
      | yes a_left ↦ elim (ℕ_discrete b (lo + p)) [
        | yes at ↦
            let here : h b ≡ f (lo + p) = ap h at ∙ at_pivot in
            omega (arith, here, left_of a ge a_left)
        | no beyond ↦ omega (arith, left_of a ge a_left, right_of b (omega arith) lt)
      ]
      | no a_not ↦ elim (ℕ_discrete a (lo + p)) [
        | yes at ↦
            let here : h a ≡ f (lo + p) = ap h at ∙ at_pivot in
            elim (ℕ_discrete b (lo + p)) [
              | yes at' ↦
                  let there : h b ≡ f (lo + p) = ap h at' ∙ at_pivot in omega (arith, here, there)
              | no beyond ↦ omega (arith, here, right_of b (omega arith) lt)
            ]
        | no beyond ↦ right_sorted a b (omega arith) le (omega (arith, parted.place))
      ]
    ]
  ]

-- With fuel for as many levels as there are items, `quicksort_u32` puts the items of a slice in
-- order: each value is there as often as before, and nothing outside the slice has changed.
pub quicksort_u32-IsSorted :
    (n lo len : ℕ) (f : Cells ℕ)
    → len ≤ n
    → IsSorted lo len (quicksort_u32 n lo len f) × Shuffles lo len f (quicksort_u32 n lo len f)
unfolding quicksort_u32
quicksort_u32-IsSorted zero lo len f enough =
    (λ a b ge le lt. absurd (omega arith), Shuffles-refl lo len f)
quicksort_u32-IsSorted (suc n) lo len f enough = elim (Bool-cases (leb len 1)) [
  | inl tiny ↦ rw tiny (
    (λ a b ge le lt.
        let same : a ≡ b = ground arith in
        let equal : f a ≡ f b = ap f same in omega (arith, equal)),
    Shuffles-refl lo len f,
  )
  | inr large ↦
      let more : 1 < len = ground arith in
      let r = partition lo len f in
      let (parted, moved) = partition-IsParted lo len f (omega arith) in
      let place : r.0 < len = parted.place in
      let (ls, lm) = quicksort_u32-IsSorted n lo (r.0) (r.1) (omega arith) in
      let g = quicksort_u32 n lo (r.0) (r.1) in
      let (rs, rm) = quicksort_u32-IsSorted n (lo + r.0 + 1) (len - (r.0 + 1)) g (omega arith) in
      let h = quicksort_u32 n (lo + r.0 + 1) (len - (r.0 + 1)) g in
      rw large (
        parts-IsSorted lo len (r.0) (r.1) g h parted lm rm ls rs,
        Shuffles-trans moved (
            Shuffles-trans (Shuffles-widen lm (omega arith) (omega arith))
              (Shuffles-widen rm (omega arith) (omega arith))),
      )
]

module _ (sorted : Cells ℕ) (order : IsSorted 0 1000 sorted) where
  at_most : (a b : ℕ) → a ≤ b → b < 1000 → sorted a / 1000 ≤ sorted b / 1000
  at_most a b le lt = omega (arith, order a b (omega arith) le (omega arith))

  stats_of-ordered :
      ((stats_of sorted).min_us ≤ (stats_of sorted).p50_us)
      × ((stats_of sorted).p50_us ≤ (stats_of sorted).p95_us)
      × ((stats_of sorted).p95_us ≤ (stats_of sorted).p99_us)
      × ((stats_of sorted).p99_us ≤ (stats_of sorted).max_us)
  unfolding stats_of
  stats_of-ordered = (
    at_most 0 500 (omega arith) (omega arith),
    at_most 500 950 (omega arith) (omega arith),
    at_most 950 990 (omega arith) (omega arith),
    at_most 990 999 (omega arith) (omega arith),
  )

  stats_of-bounds :
      (k : ℕ)
      → k < 1000
      → ((stats_of sorted).min_us ≤ sorted k / 1000) × (sorted k / 1000 ≤ (stats_of sorted).max_us)
  unfolding stats_of
  stats_of-bounds k lt = (at_most 0 k (omega arith) lt, at_most k 999 (omega arith) (omega arith))

-- The percentiles of a stage are in order: the least sample, the median, the 95th and the 99th
-- percentile and the greatest sample, in microseconds, whatever the samples are; and no sample is
-- outside the least and the greatest.
pub compute_stage_stats-ordered :
    (samples : Cells ℕ) (i : ℕ)
    → i < 1000
    → ((compute_stage_stats samples).min_us ≤ (compute_stage_stats samples).p50_us)
      × ((compute_stage_stats samples).p50_us ≤ (compute_stage_stats samples).p95_us)
      × ((compute_stage_stats samples).p95_us ≤ (compute_stage_stats samples).p99_us)
      × ((compute_stage_stats samples).p99_us ≤ (compute_stage_stats samples).max_us)
      × ((compute_stage_stats samples).min_us ≤ samples i / 1000)
      × (samples i / 1000 ≤ (compute_stage_stats samples).max_us)
unfolding compute_stage_stats
compute_stage_stats-ordered samples i lt =
    let (order, moved) = quicksort_u32-IsSorted 1000 0 1000 samples (omega arith) in
    let sorted = quicksort_u32 1000 0 1000 samples in
    let (a, b, c, d) = stats_of-ordered sorted order in
    let (k, _, inside, same) = Shuffles-item i moved (omega arith) (omega arith) in
    let (low, high) = stats_of-bounds sorted order k (omega arith) in
    (
      a,
      b,
      c,
      d,
      subst (λ (x : ℕ). (stats_of sorted).min_us ≤ x / 1000) same low,
      subst (λ (x : ℕ). x / 1000 ≤ (stats_of sorted).max_us) same high,
    )
