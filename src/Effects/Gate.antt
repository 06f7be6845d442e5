-- ===== src/Effects/Gate.antt =====
-- packages/agent/src/harness/execution/effect-gate.ts: whether a drive pass may still start effects.
-- A cancellation promise and an error are the numbers that name them.
mod Tests
use livi_agent.Prelude.{
  ℕ, ◌≡◌, ◌≢◌, ◌∙◌, ◌⊎◌, refl, Bool, true, false, not, ◌&&◌, ◌||◌, Option, none, some, List, [],
  ◌∷◌, ◌++◌, if◌then◌else◌, is_some, arith, Option-cases, inl, inr,
}

-- What the gate throws, and what it aborts the signal with.
pub data Reason : Type 0 where
  abort_requested : ℕ → Reason
  error : ℕ → Reason

pub data GateState : Type 0 where
  open_ : GateState
  aborting : ℕ → GateState
  closed : ℕ → GateState

-- `signal` is the reason of the controller's abort; `invoked` are the effects that were started.
pub record Gate : Type 0 where
  pub state : GateState
  pub signal : Option Reason
  pub invoked : List ℕ

pub create_gate : Gate
create_gate = record { state = open_; signal = none; invoked = [] }

-- What `check` throws.
pub check : Gate → Option Reason
check g = elim g.state [
  | open_ ↦ none
  | aborting cancellation ↦ some (abort_requested cancellation)
  | closed e ↦ some (error e)
]

-- `admit`: the reason that it throws, or `none` where it invokes the effect.
pub admit : Gate → ℕ → Gate × Option Reason
unfolding check
admit g effect = elim (check g) [
  | some reason ↦ (g, some reason)
  | none ↦ (record g { invoked = g.invoked ++ effect ∷ [] }, none)
]

pub begin_abort : Gate → ℕ → Gate
begin_abort g cancellation = elim g.state [
  | open_ ↦ record g { state = aborting cancellation }
  | aborting c ↦ g
  | closed e ↦ g
]

-- `controller.abort`; the first reason stays.
abort_with : Gate → Reason → Gate
abort_with g reason = if is_some g.signal then g else record g { signal = some reason }

pub signal_abort : Gate → Gate
unfolding abort_with
signal_abort g = elim g.state [
  | open_ ↦ g
  | aborting cancellation ↦ abort_with g (abort_requested cancellation)
  | closed e ↦ g
]

pub close : Gate → ℕ → Gate
unfolding abort_with
close g e = elim g.state [
  | closed old ↦ g
  | open_ ↦ abort_with (record g { state = closed e }) (error e)
  | aborting cancellation ↦ abort_with (record g { state = closed e }) (error e)
]

pub data Call : Type 0 where
  admits : ℕ → Call
  begins_abort : ℕ → Call
  signals_abort : Call
  closes : ℕ → Call

pub step : Gate → Call → Gate
unfolding admit begin_abort signal_abort close
step g (admits effect) = (admit g effect).0
step g (begins_abort cancellation) = begin_abort g cancellation
step g signals_abort = signal_abort g
step g (closes e) = close g e

pub run : Gate → List Call → Gate
run g [] = g
run g (c ∷ cs) = run (step g c) cs

-- What the signal must be in each state.
pub IsGate : Gate → Type 0
IsGate g = elim g.state [
  | open_ ↦ g.signal ≡ none
  | aborting cancellation ↦ (g.signal ≡ none) ⊎ (g.signal ≡ some (abort_requested cancellation))
  | closed e ↦ is_some g.signal ≡ true
]

step-IsGate : (g : Gate) (c : Call) → IsGate g → IsGate (step g c)
unfolding step IsGate
step-IsGate g (admits effect) h = ground (arith, h)
step-IsGate g (begins_abort cancellation) h = ground (arith, h)
step-IsGate g signals_abort h = ground (arith, h)
step-IsGate g (closes e) h = ground (arith, h)

-- Whatever the calls, the signal is not aborted while the gate is open, is aborted with nothing but
-- the cancellation's request while the gate is aborting, and is aborted once the gate is closed.
pub run-IsGate : (g : Gate) (cs : List Call) → IsGate g → IsGate (run g cs)
unfolding run
run-IsGate g [] h = h
run-IsGate g (c ∷ cs) h = run-IsGate (step g c) cs (step-IsGate g c h)

-- The gate admits nothing.
abbrev IsShut : Gate → Type 0
IsShut g = g.state ≢ open_

step-IsShut : (g : Gate) (c : Call) → IsShut g → IsShut (step g c)
unfolding step
step-IsShut g (admits effect) h = ground (arith, h)
step-IsShut g (begins_abort cancellation) h = ground (arith, h)
step-IsShut g signals_abort h = ground (arith, h)
step-IsShut g (closes e) h = ground (arith, h)

step-shut : (g : Gate) (c : Call) → IsShut g → (step g c).invoked ≡ g.invoked
unfolding step
step-shut g (admits effect) h = ground (arith, h)
step-shut g (begins_abort cancellation) h = ground (arith, h)
step-shut g signals_abort h = ground (arith, h)
step-shut g (closes e) h = ground (arith, h)

-- Once the gate is aborting or closed, no call starts a further effect.
pub run-shut : (g : Gate) (cs : List Call) → g.state ≢ open_ → (run g cs).invoked ≡ g.invoked
unfolding run
run-shut g [] h = refl
run-shut g (c ∷ cs) h = run-shut (step g c) cs (step-IsShut g c h) ∙ step-shut g c h
