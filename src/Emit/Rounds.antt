-- ===== src/Emit/Rounds.antt =====
-- The rounds of the loops of pulselang-core/src/compiler.rs over all binary operators, run by the
-- machine of pulselang-core/src/vm.rs.
use latency_os.Prelude.{ℕ, Option, none}
use latency_os.Vm.State.{Vm}
use latency_os.Emit.{Emitter, Emitted, done}

-- the end of a round: its value with a scale
abbrev with_scale : Option ℕ → Option ℕ → Emitter → Emitted (Option ℕ × Option ℕ)
with_scale scale v c = done (v, scale) c

-- a result without a scale
abbrev no_scale : ℕ → Emitter → Emitted (Option ℕ)
no_scale _ c = done none c
