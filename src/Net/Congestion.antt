-- ===== src/Net/Congestion.antt =====
-- The congestion control of kernel/src/net.rs.
use latency_os.Prelude.{
  ℕ, suc, ◌+◌, ◌-◌, ◌*◌, ◌≤◌, ◌<◌, ◌≡◌, arith, ◌%◌, ◌⊎◌, inl, inr, Bool-cases, leb,
}
use latency_os.Net.{Control, measure, adjust, on_ack_received, tsc_to_ns}

-- The rate is between 20 and 100 percent, less than four good frames are counted, and the least
-- round trip is not above the last.
pub record IsSound (c : Control) : Type 0 where
  pub floor : 20 ≤ c.rate_pct
  pub ceiling : c.rate_pct ≤ 100
  pub counted : c.good_frames < 4
  pub least : c.min_rtt_ns + c.delta_delay_ns ≡ c.last_rtt_ns

-- An acknowledgement keeps the state sound, whatever it says: the rate stays between 20 and 100
-- percent, and the counter of good frames, which is added to, cannot overflow.
pub on_ack_received-IsSound :
    (now_tsc t_pkt_tx freq_hz : ℕ) (c : Control)
    → IsSound c
    → IsSound (on_ack_received now_tsc t_pkt_tx freq_hz c)
unfolding on_ack_received measure adjust
on_ack_received-IsSound now_tsc t_pkt_tx freq_hz c s = record {
  floor = ground (arith, s.floor);
  ceiling = ground (arith, s.ceiling);
  counted = ground (arith, s.counted);
  least = ground (arith, s.least);
}

-- Acknowledgements one after the other that each find no congestion.
pub data GoodAcks : ℕ → Control → Control → Type 0 where
  no_acks : {c : Control} → GoodAcks 0 c c
  ack :
      {n : ℕ} {c c' : Control} (now_tsc t_pkt_tx freq_hz : ℕ)
      → t_pkt_tx ≤ now_tsc
      → (measure (tsc_to_ns (now_tsc - t_pkt_tx) freq_hz) c).delta_delay_ns ≤ 200_000
      → GoodAcks n (on_ack_received now_tsc t_pkt_tx freq_hz c) c'
      → GoodAcks (suc n) c c'

-- what `n` good acknowledgements come to: at the top, or on the way there
record Raised (n : ℕ) (c c' : Control) : Type 0 where
  count : c'.good_frames ≡ (c.good_frames + n) % 4
  level :
      (c'.rate_pct ≡ 100)
      ⊎ (4 * c'.rate_pct + 5 * c'.good_frames ≡ 4 * c.rate_pct + 5 * c.good_frames + 5 * n)
  below : c.rate_pct ≤ c'.rate_pct

good_ack :
    (now_tsc t_pkt_tx freq_hz : ℕ) (c : Control)
    → IsSound c
    → t_pkt_tx ≤ now_tsc
    → (measure (tsc_to_ns (now_tsc - t_pkt_tx) freq_hz) c).delta_delay_ns ≤ 200_000
    → Raised 1 c (on_ack_received now_tsc t_pkt_tx freq_hz c)
unfolding on_ack_received measure adjust
good_ack now_tsc t_pkt_tx freq_hz c s sent good = record {
  count = ground (arith, s.counted);
  level = elim (Bool-cases (leb 96 c.rate_pct)) [
    | inl high ↦ elim (Bool-cases (leb 3 c.good_frames)) [
      | inl third ↦ inl (ground (arith, s.ceiling))
      | inr early ↦ inr (ground arith)
    ]
    | inr low ↦ inr (ground (arith, s.counted))
  ];
  below = ground (arith, s.ceiling);
}

GoodAcks-Raised :
    {n : ℕ} {c c' : Control} → IsSound c → GoodAcks n c c' → IsSound c' × Raised n c c'
GoodAcks-Raised {n} {c} s no_acks =
    (s, record { count = omega (arith, s.counted); level = inr (omega arith); below = omega arith })
GoodAcks-Raised {n} {c} {c'} s (ack {n = m} now_tsc t_pkt_tx freq_hz sent good rest) =
    let s1 = on_ack_received-IsSound now_tsc t_pkt_tx freq_hz c s in
    let first = good_ack now_tsc t_pkt_tx freq_hz c s sent good in
    let (s', then) = GoodAcks-Raised s1 rest in
    (
      s',
      record {
        count = omega (arith, first.count, then.count);
        level =
            both (on_ack_received now_tsc t_pkt_tx freq_hz c) first.level then.level then.below
              s'.ceiling;
        below = omega (arith, first.below, then.below);
      },
    )
  where
    both :
        (c1 : Control)
        → (c1.rate_pct ≡ 100)
          ⊎ (4 * c1.rate_pct + 5 * c1.good_frames ≡ 4 * c.rate_pct + 5 * c.good_frames + 5 * 1)
        → (c'.rate_pct ≡ 100)
          ⊎ (4 * c'.rate_pct + 5 * c'.good_frames ≡ 4 * c1.rate_pct + 5 * c1.good_frames + 5 * m)
        → c1.rate_pct ≤ c'.rate_pct
        → c'.rate_pct ≤ 100
        → (c'.rate_pct ≡ 100)
          ⊎ (4 * c'.rate_pct + 5 * c'.good_frames ≡ 4 * c.rate_pct + 5 * c.good_frames + 5 * suc m)
    both c1 (inl top) _ le ceiling = inl (omega arith)
    both c1 (inr way) (inl top) le ceiling = inl top
    both c1 (inr way) (inr more) le ceiling = inr (omega (arith, way, more))

-- No acknowledgement of a sequence lowers the rate.
abbrev pub Rises : {n : ℕ} {c c' : Control} → GoodAcks n c c' → Type 0
Rises no_acks = Unit
Rises (ack {c} now_tsc t_pkt_tx freq_hz sent good rest) =
    (c.rate_pct ≤ (on_ack_received now_tsc t_pkt_tx freq_hz c).rate_pct) × Rises rest

GoodAcks-Rises : {n : ℕ} {c c' : Control} → IsSound c → (acks : GoodAcks n c c') → Rises acks
GoodAcks-Rises s no_acks = tt
GoodAcks-Rises {c} s (ack now_tsc t_pkt_tx freq_hz sent good rest) = (
  (good_ack now_tsc t_pkt_tx freq_hz c s sent good).below,
  GoodAcks-Rises (on_ack_received-IsSound now_tsc t_pkt_tx freq_hz c s) rest,
)

-- The rate recovers: from any sound state, 64 acknowledgements without congestion bring it to 100
-- percent, and none of them lowers it.
pub GoodAcks-recovers :
    {c c' : Control} → IsSound c → (acks : GoodAcks 64 c c') → (c'.rate_pct ≡ 100) × Rises acks
GoodAcks-recovers {c} {c'} s acks =
    let (s', r) = GoodAcks-Raised s acks in
    (
      elim r.level [
        | inl top ↦ top
        | inr way ↦ omega (arith, r.count, way, s.floor, s.counted, s'.ceiling)
      ],
      GoodAcks-Rises s acks,
    )
