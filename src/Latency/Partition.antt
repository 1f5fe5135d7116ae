-- ===== src/Latency/Partition.antt =====
-- `partition` of kernel/src/latency.rs.
use latency_os.Prelude.{
  ℕ, zero, suc, ◌+◌, ◌-◌, ◌≤◌, ◌<◌, ◌≡◌, refl, sym, arith, ◌≢◌, inl, inr, Cells, ==_ne, Bool-cases,
  leb, subst,
}
use native.Mathlib.Decide.{ℕ_discrete}
use latency_os.Latency.{swap, partition_from, partition}
use latency_os.Latency.Shuffle.{
  Shuffles, Shuffles-refl, Shuffles-trans, Shuffles-widen, Shuffles-swap,
}

-- The first `i` items are at most the pivot, and those from there to `j` are above it.
record Split (lo pivot i j : ℕ) (f : Cells ℕ) : Type 0 where
  low : (k : ℕ) → lo ≤ k → k < lo + i → f k ≤ pivot
  high : (k : ℕ) → lo + i ≤ k → k < lo + j → pivot < f k

Split-swap :
    (lo pivot i j : ℕ) (f : Cells ℕ)
    → i ≤ j
    → f (lo + j) ≤ pivot
    → Split lo pivot i j f
    → Split lo pivot (suc i) (suc j) (swap f (lo + i) (lo + j))
Split-swap lo pivot i j f le small s = record {
  low = λ k ge lt. elim (ℕ_discrete k (lo + j)) [
    | yes kj ↦
        let same : lo + i ≡ lo + j = omega arith in
        let fits : f (lo + i) ≤ pivot = subst (λ (t : ℕ). f t ≤ pivot) (sym same) small in
        rw kj (ground (arith, fits))
    | no kj ↦ elim (ℕ_discrete k (lo + i)) [
      | yes ki ↦ ground arith
      | no ki ↦ let old : f k ≤ pivot = s.low k ge (omega arith) in ground arith
    ]
  ];
  high = λ k ge lt. elim (ℕ_discrete k (lo + j)) [
    | yes kj ↦
        let old : pivot < f (lo + i) = s.high (lo + i) (omega arith) (omega arith) in ground arith
    | no kj ↦
        let old : pivot < f k = s.high k (omega arith) (omega arith) in
        let ki : k ≢ lo + i = omega arith in ground arith
  ];
}

Split-skip :
    (lo pivot i j : ℕ) (f : Cells ℕ)
    → pivot < f (lo + j)
    → Split lo pivot i j f
    → Split lo pivot i (suc j) f
Split-skip lo pivot i j f large s = record {
  low = s.low;
  high = λ k ge lt. elim (ℕ_discrete k (lo + j)) [
    | yes kj ↦ subst (λ (t : ℕ). pivot < f t) (sym kj) large
    | no kj ↦ s.high k ge (omega arith)
  ];
}

-- what the loop leaves of `m` items
record Parted (lo pivot m : ℕ) (f : Cells ℕ) (r : ℕ × Cells ℕ) : Type 0 where
  place : r.0 ≤ m
  split : Split lo pivot (r.0) m (r.1)
  moved : Shuffles lo m f (r.1)

partition_from-Parted :
    (lo pivot n j i m : ℕ) (f : Cells ℕ)
    → j + n ≡ m
    → i ≤ j
    → Split lo pivot i j f
    → Parted lo pivot m f (partition_from lo pivot n j i f)
unfolding partition_from
partition_from-Parted lo pivot zero j i m f total le s =
    let same : j ≡ m = omega arith in
    record {
      place = omega arith;
      split = subst (λ (t : ℕ). Split lo pivot i t f) same s;
      moved = Shuffles-refl lo m f;
    }
partition_from-Parted lo pivot (suc n) j i m f total le s =
    elim (Bool-cases (leb (f (lo + j)) pivot)) [
      | inl small ↦
          let rest =
            partition_from-Parted lo pivot n (suc j) (suc i) m (swap f (lo + i) (lo + j))
              (omega arith) (omega arith) (Split-swap lo pivot i j f le (ground arith) s) in
          rw small (record {
            place = rest.place;
            split = rest.split;
            moved =
                Shuffles-trans
                  (Shuffles-swap lo m (lo + i) (lo + j) f (omega arith) (omega arith) (omega arith)
                    (omega arith))
                  rest.moved;
          })
      | inr large ↦
          let rest =
            partition_from-Parted lo pivot n (suc j) i m f (omega arith) (omega arith)
              (Split-skip lo pivot i j f (ground arith) s) in
          rw large rest
    ]

-- The pivot stands at place `p`, nothing before it is larger, and nothing behind it is smaller.
pub record IsParted (lo len p : ℕ) (f : Cells ℕ) : Type 0 where
  pub place : p < len
  pub before : (k : ℕ) → lo ≤ k → k < lo + p → f k ≤ f (lo + p)
  pub behind : (k : ℕ) → lo + p < k → k < lo + len → f (lo + p) ≤ f k

module _ (lo m p pivot : ℕ) (g : Cells ℕ) (place : p ≤ m) (stays : g (lo + m) ≡ pivot)
    (split : Split lo pivot p m g) where
  -- The pivot changes places with the first item above it.
  pivot_at : swap g (lo + p) (lo + m) (lo + p) ≡ pivot
  pivot_at = elim (ℕ_discrete p m) [
    | yes same ↦
        let there : g (lo + p) ≡ pivot = subst (λ (t : ℕ). g (lo + t) ≡ pivot) (sym same) stays in
        ground arith
    | no other ↦ ground arith
  ]

  swap-IsParted : IsParted lo (suc m) p (swap g (lo + p) (lo + m))
  swap-IsParted = record {
    place = omega arith;
    before = λ k ge lt.
        let old : g k ≤ pivot = split.low k ge lt in
        let mid = pivot_at in
        let ne : k ≢ lo + m = omega arith in
        let ne' : k ≢ lo + p = omega arith in
        let kept : swap g (lo + p) (lo + m) k ≡ g k = rw (==_ne _ _ ne, ==_ne _ _ ne') refl in
        omega (arith, kept, mid, old);
    behind = λ k ge lt.
        let mid = pivot_at in
        elim (ℕ_discrete k (lo + m)) [
          | yes last ↦
              let old : pivot < g (lo + p) = split.high (lo + p) (omega arith) (omega arith) in
              let moved : swap g (lo + p) (lo + m) k ≡ g (lo + p) = rw last (ground arith) in
              omega (arith, mid, moved, old)
          | no inner ↦
              let old : pivot < g k = split.high k (omega arith) (omega arith) in
              let ne' : k ≢ lo + p = omega arith in
              let kept : swap g (lo + p) (lo + m) k ≡ g k =
                rw (==_ne _ _ inner, ==_ne _ _ ne') refl in
              omega (arith, kept, mid, old)
        ];
  }

pub partition-IsParted :
    (lo len : ℕ) (f : Cells ℕ)
    → 0 < len
    → IsParted lo len ((partition lo len f).0) ((partition lo len f).1)
      × Shuffles lo len f ((partition lo len f).1)
unfolding partition
partition-IsParted lo len f pos =
    let m : ℕ = len - 1 in
    let pivot : ℕ = f (lo + m) in
    let size : suc m ≡ len = omega arith in
    let r = partition_from lo pivot m 0 0 f in
    let parted =
      partition_from-Parted lo pivot m 0 0 m f (omega arith) (omega arith) (record {
        low = λ k ge lt. absurd (omega arith);
        high = λ k ge lt. absurd (omega arith);
      }) in
    let stays : (r.1) (lo + m) ≡ pivot = parted.moved.outside (lo + m) (inr (omega arith)) in
    let place : r.0 ≤ m = parted.place in
    (
      subst (λ (t : ℕ). IsParted lo t (r.0) (swap (r.1) (lo + r.0) (lo + m))) size
          (swap-IsParted lo m (r.0) pivot (r.1) place stays parted.split),
      Shuffles-trans (Shuffles-widen parted.moved (omega arith) (omega arith)) (
          Shuffles-swap lo len (lo + r.0) (lo + m) (r.1) (omega arith) (omega arith) (omega arith)
            (omega arith)),
    )
