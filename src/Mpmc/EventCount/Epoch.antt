-- ===== src/Mpmc/EventCount/Epoch.antt =====
-- mpmc-work-queue-kata/cpp/src/eventcount.hpp: `EpochWake`, whose state is its epoch.
use principal_katas.Prelude.{ℕ, ◌+◌, Bool, true, Option, List, u32}
use principal_katas.Mpmc.EventCount.{Wakes, one, everyone, Sight}
use principal_katas.Mpmc.EventCount.{wait_loop}

unfoldable pub prepare_wait : ℕ → ℕ
prepare_wait epoch = epoch

unfoldable pub wait : ℕ → ℕ → List Sight → Option Bool
unfolding wait_loop
wait key until sights = wait_loop key until sights

unfoldable pub notify_one : ℕ → Bool × Wakes × ℕ
notify_one epoch = (true, one, u32 (epoch + 1))

unfoldable pub notify_all_if_waiting : ℕ → Bool × Wakes × ℕ
notify_all_if_waiting epoch = (true, everyone, u32 (epoch + 1))

unfoldable pub notify_all : ℕ → Wakes × ℕ
notify_all epoch = (everyone, u32 (epoch + 1))
