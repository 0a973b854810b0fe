-- ===== src/Metrics.antt =====
-- hal/latency_tracker.h and .cpp, hal/frame_metrics.h and .cpp. Latencies are microseconds; the sum
-- of a signed 64-bit count is taken not to overflow, which would be undefined in the source.
use minicam_hal.Common.{ℕ, ◌+◌, ◌/◌, ◌==◌, if◌then◌else◌, inc64}

pub record LatencyTracker : Type 0 where
  pub count : ℕ
  pub total : ℕ

unfoldable pub record_latency : ℕ → LatencyTracker → LatencyTracker
record_latency latency l = record { count = inc64 l.count; total = l.total + latency }

unfoldable pub average : LatencyTracker → ℕ
average l = if l.count == 0 then 0 else l.total / l.count

pub record FrameMetrics : Type 0 where
  pub completed : ℕ
  pub failed : ℕ
  pub latency : LatencyTracker

abbrev pub no_metrics : FrameMetrics
no_metrics = record { completed = 0; failed = 0; latency = record { count = 0; total = 0 } }

unfoldable pub record_success : ℕ → FrameMetrics → FrameMetrics
record_success latency m = record m {
  completed = inc64 m.completed;
  latency = record_latency latency m.latency;
}

unfoldable pub record_failure : FrameMetrics → FrameMetrics
record_failure m = record m { failed = inc64 m.failed }

unfoldable pub average_latency : FrameMetrics → ℕ
average_latency m = average m.latency
