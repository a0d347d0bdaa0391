-- ===== src/Metrics.antt =====
-- internal/metrics/metrics.go: the registry of counters and gauges. A pointer that Counter or Gauge
-- returns stands for the name it was asked by, since a name's entry is never replaced.
pub mod Names
pub mod Totals
pub mod Render
mod Examples
use haribon.Prelude.{
  ℕ, String, Option, none, some, List, [], ◌∷◌, ℤ, pos, inc_int64, dec_int64, add_int64,
}
use haribon.Prelude.Dict.{Dict, get, put}

-- type Registry struct, with the values behind the pointers
pub record Metrics : Type 0 where
  pub counters : Dict ℤ
  pub gauges : Dict ℤ

-- func New
unfoldable pub new_metrics : Metrics
new_metrics = record { counters = []; gauges = [] }

-- The entry of a name, made with the value zero where it is missing.
unfoldable pub with_entry : Dict ℤ → String → Dict ℤ
with_entry m name = elim (get m name) [ none ↦ put m name (pos 0) | some v ↦ m ]

-- func (r *Registry) Counter
unfoldable pub counter : String → Metrics → Metrics
unfolding with_entry
counter name r = record r { counters = with_entry r.counters name }

-- func (r *Registry) Gauge
unfoldable pub gauge : String → Metrics → Metrics
unfolding with_entry
gauge name r = record r { gauges = with_entry r.gauges name }

-- Load, after Counter or Gauge
unfoldable pub load : Dict ℤ → String → ℤ
load m name = elim (get m name) [ none ↦ pos 0 | some v ↦ v ]

-- Inc of a counter
unfoldable pub counter_inc : String → Metrics → Metrics
unfolding counter load
counter_inc name r =
    let r' = counter name r in
    record r' { counters = put r'.counters name (inc_int64 (load r'.counters name)) }

-- Set of a gauge
unfoldable pub gauge_set : String → ℤ → Metrics → Metrics
unfolding gauge
gauge_set name n r = let r' = gauge name r in record r' { gauges = put r'.gauges name n }

-- Add of a counter
unfoldable pub counter_add : String → ℤ → Metrics → Metrics
unfolding counter load
counter_add name n r =
    let r' = counter name r in
    record r' { counters = put r'.counters name (add_int64 (load r'.counters name) n) }

-- Set of a counter
unfoldable pub counter_set : String → ℤ → Metrics → Metrics
unfolding counter
counter_set name n r = let r' = counter name r in record r' { counters = put r'.counters name n }

-- Inc of a gauge
unfoldable pub gauge_inc : String → Metrics → Metrics
unfolding gauge load
gauge_inc name r =
    let r' = gauge name r in
    record r' { gauges = put r'.gauges name (inc_int64 (load r'.gauges name)) }

-- Dec of a gauge
unfoldable pub gauge_dec : String → Metrics → Metrics
unfolding gauge load
gauge_dec name r =
    let r' = gauge name r in
    record r' { gauges = put r'.gauges name (dec_int64 (load r'.gauges name)) }
