-- ===== src/Net/Tests.antt =====
-- Packets and acknowledgements of kernel/src/net.rs.
use latency_os.Prelude.{
  ℕ, zero, suc, ◌/◌, ◌%◌, ◌^◌, ◌≡◌, refl, arith, ◌↔◌, some, List, [], ◌∷◌, ◌++◌,
}
use latency_os.Net.{
  Control, initial_control, on_ack_received, measure, adjust, tsc_to_ns, compute_ip_checksum,
  sum_words, fold_carry, packet_iv, seq_after,
}
use latency_os.Net.Congestion.{
  IsSound, on_ack_received-IsSound, GoodAcks, no_acks, ack, Rises, GoodAcks-recovers,
}
use latency_os.Net.Checksum.{bytes_of, AreBytes, compute_ip_checksum-verifies}
use latency_os.Net.Nonce.{packet_iv-seq_after}

initial-IsSound : IsSound initial_control
unfolding initial_control
initial-IsSound = record {
  floor = omega arith;
  ceiling = omega arith;
  counted = omega arith;
  least = omega arith;
}

-- a round trip of a millisecond at 3 GHz: the rate falls to 80 percent
congested : (on_ack_received 3_000_000 0 3_000_000_000 initial_control).rate_pct ≡ 80
unfolding on_ack_received measure adjust tsc_to_ns initial_control
congested = refl

on_ack_received-IsSound_example :
    IsSound (on_ack_received 3_000_000 0 3_000_000_000 initial_control)
on_ack_received-IsSound_example =
    on_ack_received-IsSound 3_000_000 0 3_000_000_000 initial_control initial-IsSound

-- acknowledgements that come back at once
abbrev after : ℕ → Control → Control
after zero c = c
after (suc n) c = after n (on_ack_received 5 5 3_000_000_000 c)

at_once : (n : ℕ) (c : Control) → GoodAcks n c (after n c)
unfolding measure tsc_to_ns
at_once zero c = no_acks
at_once (suc n) c =
    ack 5 5 3_000_000_000 (omega arith) (ground arith)
      (at_once n (on_ack_received 5 5 3_000_000_000 c))

GoodAcks-recovers_example :
    ((after 64 initial_control).rate_pct ≡ 100) × Rises (at_once 64 initial_control)
GoodAcks-recovers_example =
    GoodAcks-recovers {c = initial_control} {c' = after 64 initial_control} initial-IsSound
      (at_once 64 initial_control)

-- words of the header that `stream_send_frame` writes for a packet of 1380 bytes of payload
abbrev header_start : List (ℕ × ℕ)
header_start = (0x45, 0) ∷ (5, 0x94) ∷ (0, 7) ∷ (0x40, 0) ∷ (64, 17) ∷ []

abbrev header_end : List (ℕ × ℕ)
header_end = (192, 168) ∷ (1, 10) ∷ (192, 168) ∷ (1, 20) ∷ []

bytes_at_start : AreBytes header_start
bytes_at_start = (
  omega arith,
  omega arith,
  (
    omega arith,
    omega arith,
    (omega arith, omega arith, (omega arith, omega arith, (omega arith, omega arith, tt))),
  ),
)

bytes_at_end : AreBytes header_end
bytes_at_end = (
  omega arith,
  omega arith,
  (omega arith, omega arith, (omega arith, omega arith, (omega arith, omega arith, tt))),
)

header_checksum : compute_ip_checksum (bytes_of (header_start ++ (0, 0) ∷ header_end)) ≡ some 45_539
unfolding compute_ip_checksum sum_words fold_carry
header_checksum = refl

packet_iv-seq_after_example : (packet_iv (seq_after 65_536 9) ≡ packet_iv 9) ↔ (65_536 % 2 ^ 16 ≡ 0)
packet_iv-seq_after_example = packet_iv-seq_after 65_536 9 (omega arith)

compute_ip_checksum-verifies_example :
    compute_ip_checksum (bytes_of (header_start ++ (45_539 / 256, 45_539 % 256) ∷ header_end))
    ≡ some 0
compute_ip_checksum-verifies_example =
    compute_ip_checksum-verifies header_start header_end 45_539 bytes_at_start bytes_at_end
      (omega arith) header_checksum
