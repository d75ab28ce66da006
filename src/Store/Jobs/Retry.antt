-- ===== src/Store/Jobs/Retry.antt =====
-- The backoff of the queue.
use signal_ledger_project.Prelude.{ℕ, zero, suc, ◌*◌, ◌≡◌, refl, arith}
use signal_ledger_project.Store.Jobs.{retry_delay, second}

-- The delay after a number of attempts, in seconds.
abbrev pub seconds_after : ℕ → ℕ
seconds_after zero = 1
seconds_after (suc zero) = 1
seconds_after (suc (suc zero)) = 2
seconds_after (suc (suc (suc zero))) = 4
seconds_after (suc (suc (suc (suc zero)))) = 8
seconds_after (suc (suc (suc (suc (suc zero))))) = 16
seconds_after (suc (suc (suc (suc (suc (suc zero)))))) = 32
seconds_after (suc (suc (suc (suc (suc (suc (suc n))))))) = 64

-- The delay starts at one second, doubles with each attempt from the second on, and stays at 64
-- seconds from the seventh on.
pub retry_delay-eq : (attempts : ℕ) → retry_delay attempts ≡ seconds_after attempts * second
unfolding retry_delay
retry_delay-eq zero = refl
retry_delay-eq (suc zero) = refl
retry_delay-eq (suc (suc zero)) = refl
retry_delay-eq (suc (suc (suc zero))) = refl
retry_delay-eq (suc (suc (suc (suc zero)))) = refl
retry_delay-eq (suc (suc (suc (suc (suc zero))))) = refl
retry_delay-eq (suc (suc (suc (suc (suc (suc zero)))))) = refl
retry_delay-eq (suc (suc (suc (suc (suc (suc (suc n))))))) = ground arith
