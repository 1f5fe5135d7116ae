-- ===== src/Latency/Tests.antt =====
-- Samples of kernel/src/latency.rs.
use latency_os.Prelude.{ℕ, ◌/◌, ◌≤◌, ◌≡◌, refl, arith, Cells, update}
use latency_os.Latency.{quicksort_u32, partition, partition_from, compute_stage_stats}
use latency_os.Latency.Shuffle.{Shuffles}
use latency_os.Latency.Sort.{IsSorted, quicksort_u32-IsSorted, compute_stage_stats-ordered}

-- 5, 3, 9, 3
abbrev four : Cells ℕ
four = update (update (update (update (λ _. 0) 0 5) 1 3) 2 9) 3 3

greatest : quicksort_u32 4 0 4 four 3 ≡ 9
unfolding quicksort_u32 partition partition_from
greatest = refl

second : quicksort_u32 4 0 4 four 2 ≡ 5
unfolding quicksort_u32 partition partition_from
second = refl

quicksort_u32-IsSorted_example :
    IsSorted 0 4 (quicksort_u32 4 0 4 four) × Shuffles 0 4 four (quicksort_u32 4 0 4 four)
quicksort_u32-IsSorted_example = quicksort_u32-IsSorted 4 0 4 four (omega arith)

-- one slow frame among fast ones
abbrev one_slow : Cells ℕ
one_slow = update (λ _. 40_000) 17 9_000_000

compute_stage_stats-ordered_example :
    ((compute_stage_stats one_slow).min_us ≤ (compute_stage_stats one_slow).p50_us)
    × ((compute_stage_stats one_slow).p50_us ≤ (compute_stage_stats one_slow).p95_us)
    × ((compute_stage_stats one_slow).p95_us ≤ (compute_stage_stats one_slow).p99_us)
    × ((compute_stage_stats one_slow).p99_us ≤ (compute_stage_stats one_slow).max_us)
    × ((compute_stage_stats one_slow).min_us ≤ one_slow 17 / 1000)
    × (one_slow 17 / 1000 ≤ (compute_stage_stats one_slow).max_us)
compute_stage_stats-ordered_example = compute_stage_stats-ordered one_slow 17 (omega arith)
