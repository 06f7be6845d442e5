-- ===== src/Studio/Journal/Reads.antt =====
-- Reads of studio-journal.ts that leave the binding.
use livi_agent.Prelude.{String, ◌≡◌, arith}
use livi_agent.Studio.Journal.{Journal, admission, binding}

pub binding-admission : (j : Journal) (op : String) → binding (admission j op).0 ≡ binding j
unfolding admission binding
binding-admission j op = ground arith
