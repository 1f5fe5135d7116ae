-- ===== src/Vm/Safe/Turn.antt =====
-- One turn of the loop of `run_with_output` (pulselang-core/src/vm.rs) from a safe state.
use latency_os.Prelude.{ℕ, ◌+◌, ◌≡◌, refl, ◌≢◌, Option, none, some}
use latency_os.Isa.{Opcode, decode_opcode}
use latency_os.Vm.State.{Host, Setup, Vm, Operands, failed, panicked}
use latency_os.Vm.Exec.{exec, dispatch, turn, fetched, byte_at, operands_at}
use latency_os.Vm.Effect.{Keeps, turn-Keeps}
use latency_os.Vm.Bounded.{IsBounded, turn-IsBounded}
use latency_os.Vm.Safe.{IsLaidOut, Fits}
use latency_os.Vm.Safe.Panics.{exec-ne-panicked}
use latency_os.Vm.Safe.Layout.{exec-IsLaidOut}
use latency_os.Prelude.{leb, length, Bool-cases, inl, inr}
use latency_os.Vm.State.{invalid_opcode}

module _ (h : Host) (s : Setup) where
  dispatch-ne-panicked :
      (op : ℕ) (i : Operands) (vm : Vm)
      → IsLaidOut vm
      → IsBounded vm
      → ((o : Opcode) → decode_opcode op ≡ some o → Fits o i vm)
      → dispatch h s op i vm ≢ panicked
  unfolding dispatch
  dispatch-ne-panicked op i vm l b fits = go (decode_opcode op) fits
    where
      go :
          (d : Option Opcode)
          → ((o : Opcode) → d ≡ some o → Fits o i vm)
          → elim d [ none ↦ failed invalid_opcode vm | some o ↦ exec h s o i vm ] ≢ panicked
      go none fits = cc
      go (some o) fits = exec-ne-panicked h s i vm l b o (fits o refl)

  turn-ne-panicked :
      (vm : Vm)
      → IsLaidOut vm
      → IsBounded vm
      → ((o : Opcode)
          → decode_opcode (byte_at s vm.ip) ≡ some o
          → Fits o (operands_at s vm.ip) (fetched vm))
      → turn h s vm ≢ panicked
  unfolding turn
  turn-ne-panicked vm l b fits = elim (Bool-cases (leb (vm.ip + 4) (length s.code))) [
    | inr out ↦ rw out (cc)
    | inl inside ↦ rw inside (elim (Bool-cases (leb s.max_steps vm.steps)) [
      | inl over ↦ rw over (cc)
      | inr left ↦ rw left (
          dispatch-ne-panicked (byte_at s vm.ip) (operands_at s vm.ip) (fetched vm)
            (record { arrays = l.arrays; structs = l.structs })
            (record { calls = b.calls; deadlines = b.deadlines }) fits)
    ])
  ]

  -- From a state whose arrays and structs lie within the slots and whose two stack pointers are at
  -- most eight, a turn whose instruction fits does not panic, and both are so afterwards.
  pub turn_safe :
      (vm : Vm)
      → IsLaidOut vm
      → IsBounded vm
      → ((o : Opcode)
          → decode_opcode (byte_at s vm.ip) ≡ some o
          → Fits o (operands_at s vm.ip) (fetched vm))
      → (turn h s vm ≢ panicked) × Keeps IsLaidOut (turn h s vm) × Keeps IsBounded (turn h s vm)
  turn_safe vm l b fits =
      let l' : IsLaidOut (fetched vm) = record { arrays = l.arrays; structs = l.structs } in
      (
        turn-ne-panicked vm l b fits,
        turn-Keeps h s IsLaidOut vm l l' (λ o e. exec-IsLaidOut h s o _ (fetched vm) l' (fits o e)),
        turn-IsBounded h s vm b,
      )
