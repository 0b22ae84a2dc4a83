-- ===== src/Mpmc/Api.antt =====
-- mpmc-work-queue-kata/cpp/src/queue_api.hpp and config.hpp: what the queues return and count.
use principal_katas.Prelude.{ℕ, ◌^◌, add64}

-- `kCapacity`
abbrev pub queue_capacity : ℕ
queue_capacity = 2 ^ 16

pub data Push : Type 0 where
  ok full closed timeout : Push

pub data Pop : Type 0 where
  ok empty drained timeout : Pop

-- `OpStats`, without its pointer to a histogram
pub record OpStats : Type 0 where
  pub retries : ℕ
  pub parks : ℕ
  pub backstops : ℕ
  pub wakes : ℕ
  pub holes : ℕ

abbrev pub no_stats : OpStats
no_stats = record { retries = 0; parks = 0; backstops = 0; wakes = 0; holes = 0 }

-- `OpStats::merge`
unfoldable pub merge_stats : OpStats → OpStats → OpStats
merge_stats s o = record {
  retries = add64 s.retries o.retries;
  parks = add64 s.parks o.parks;
  backstops = add64 s.backstops o.backstops;
  wakes = add64 s.wakes o.wakes;
  holes = add64 s.holes o.holes;
}

-- `++st.parks`
abbrev pub parked : OpStats → OpStats
parked s = record s { parks = add64 s.parks 1 }
