-- ===== src/Effects/Retry/Tests.antt =====
-- Retry times of retry.ts.
use livi_agent.Prelude.{◌≡◌, refl}
use livi_agent.Effects.Retry.{retry_delay}

third_delay : retry_delay 1000 3 ≡ 4000
unfolding retry_delay
third_delay = refl
