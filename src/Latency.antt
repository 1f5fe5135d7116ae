-- ===== src/Latency.antt =====
-- kernel/src/latency.rs: the samples of the pipeline's stages, and their statistics.
pub mod Shuffle
pub mod Partition
pub mod Sort
mod Tests
use latency_os.Prelude.{
  ℕ, zero, suc, ◌+◌, ◌-◌, ◌*◌, ◌/◌, ◌%◌, ◌^◌, Bool, true, false, ◌&&◌, Cells, update, ltb, leb,
  ◌==◌, if◌then◌else◌,
}

-- `arr.swap(i, j)`
abbrev pub swap : Cells ℕ → ℕ → ℕ → Cells ℕ
swap f i j = update (update f i (f j)) j (f i)

-- the loop of `partition` on the slice that begins at `lo`, with `n` rounds to go
unfoldable pub partition_from : ℕ → ℕ → ℕ → ℕ → ℕ → Cells ℕ → ℕ × Cells ℕ
partition_from lo pivot zero j i f = (i, f)
partition_from lo pivot (suc n) j i f =
    let small = leb (f (lo + j)) pivot in
    partition_from lo pivot n (suc j) (if small then suc i else i)
      (if small then swap f (lo + i) (lo + j) else f)

-- `partition` of a slice of `len` items, with the place of the pivot
unfoldable pub partition : ℕ → ℕ → Cells ℕ → ℕ × Cells ℕ
unfolding partition_from
partition lo len f =
    let (i, f') = partition_from lo (f (lo + (len - 1))) (len - 1) 0 0 f in
    (i, swap f' (lo + i) (lo + (len - 1)))

-- The depth of the recursion is the fuel. The two slices that are sorted do not overlap.
unfoldable pub quicksort_u32 : ℕ → ℕ → ℕ → Cells ℕ → Cells ℕ
unfolding partition
quicksort_u32 zero lo len f = f
quicksort_u32 (suc n) lo len f =
    let (p, f') = partition lo len f in
    let sorted = quicksort_u32 n (lo + p + 1) (len - (p + 1)) (quicksort_u32 n lo p f') in
    if leb len 1 then f else sorted

abbrev pub sample_count : ℕ
sample_count = 1000

abbrev pub stage_count : ℕ
stage_count = 7

-- `record_stage_sample`: the samples of each stage by their number
unfoldable pub record_stage_sample : ℕ → ℕ → ℕ → Cells (Cells ℕ) → Cells (Cells ℕ)
record_stage_sample stage sample value samples =
    if ltb stage stage_count && ltb sample sample_count
    then update samples stage (update (samples stage) sample value)
    else samples

pub record StageStats : Type 0 where
  pub mean_us : ℕ
  pub p50_us : ℕ
  pub p95_us : ℕ
  pub p99_us : ℕ
  pub max_us : ℕ
  pub min_us : ℕ

-- the sum of `n` samples from `i` on; a thousand samples of 32 bits fit a sum of 64 bits
unfoldable pub sum_samples : ℕ → ℕ → Cells ℕ → ℕ
sum_samples zero i f = 0
sum_samples (suc n) i f = f i + sum_samples n (suc i) f

-- the statistics of samples in order
unfoldable pub stats_of : Cells ℕ → StageStats
stats_of sorted = record {
  mean_us = sum_samples sample_count 0 sorted / sample_count % 2 ^ 32 / 1000;
  p50_us = sorted (sample_count * 50 / 100) / 1000;
  p95_us = sorted (sample_count * 95 / 100) / 1000;
  p99_us = sorted (sample_count * 99 / 100) / 1000;
  max_us = sorted (sample_count - 1) / 1000;
  min_us = sorted 0 / 1000;
}

unfoldable pub compute_stage_stats : Cells ℕ → StageStats
compute_stage_stats samples = stats_of (quicksort_u32 sample_count 0 sample_count samples)
