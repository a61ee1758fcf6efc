-- ===== src/Storage/Counts.antt =====
-- The sums of `stats` of storage/repository.py.
use gpt_trace_extractor_for.Base.{◌+◌, ◌≡◌, [], ◌∷◌, arith, length}
use gpt_trace_extractor_for.Storage.{Table}
use gpt_trace_extractor_for.Storage.Start.{stats}

-- The total of the statistics is the number of rows, and the sum of the counts of the statuses.
pub stats_total :
    (table : Table)
    → ((stats table).total ≡ length table)
      × ((stats table).pending_runs
            + (stats table).running_runs
            + (stats table).completed_runs
            + (stats table).failed_runs
          ≡ (stats table).total)
unfolding stats
stats_total [] = omega arith
stats_total (run ∷ table) = ground (arith, stats_total table)
