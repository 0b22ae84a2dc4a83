-- ===== src/Mpsc/Config.antt =====
-- mpsc-event-pipeline-kata/cpp/src/config.hpp: the pipeline's policies, limits and read-outs.
use principal_katas.Prelude.{ℕ}

pub data FullPolicy : Type 0 where
  drop_newest spin_then_drop : FullPolicy

pub data ScanPolicy : Type 0 where
  full_scan bitmap : ScanPolicy

pub data StopMode : Type 0 where
  drain abort : StopMode

-- `kMaxProducers`, `kRingCapacity`, `kDrainBatch`, `kStageEvents`
pub record Limits : Type 0 where
  pub max_producers : ℕ
  pub ring_capacity : ℕ
  pub drain_batch : ℕ
  pub stage_events : ℕ

abbrev pub source_limits : Limits
source_limits = record {
  max_producers = 64;
  ring_capacity = 4096;
  drain_batch = 512;
  stage_events = 2048;
}

-- `PipelineConfig`, without its time-out
pub record Config : Type 0 where
  pub full : FullPolicy
  pub scan : ScanPolicy
  pub spin_before_park : ℕ
  pub push_spin : ℕ

pub record PipelineStats : Type 0 where
  pub pushed : ℕ
  pub dropped : ℕ
  pub consumed : ℕ
  pub rings_probed : ℕ
  pub rings_empty : ℕ
  pub passes : ℕ
  pub bitmap_writes : ℕ
  pub notifies : ℕ
  pub parks : ℕ
  pub high_water : ℕ
