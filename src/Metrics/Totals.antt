-- ===== src/Metrics/Totals.antt =====
-- What the counters and gauges read after a call.
use haribon.Prelude.{
  ◌≡◌, refl, String, ℤ, pos, inc_int64, str_eq, eq_iff, if◌then◌else◌, arith, Option-cases, inl,
  inr,
}
use haribon.Prelude.Dict.{Dict, get, put, get-put}
use haribon.Metrics.{Metrics, with_entry, counter, gauge, load, counter_inc, gauge_set}

load-put :
    (m : Dict ℤ) (name : String) (n : ℤ) (k : String)
    → load (put m name n) k ≡ (if str_eq name k then n else load m k)
unfolding load
load-put m name n k = rw (get-put m name n k, load) (ground arith)

load-with_entry : (m : Dict ℤ) (name k : String) → load (with_entry m name) k ≡ load m k
unfolding load with_entry
load-with_entry m name k = elim (Option-cases (get m name)) [
  | inl missing ↦
      rw (missing, with_entry)
        (rw (load, get-put m name (pos 0) k) (ground (arith, missing, eq_iff name k)))
  | inr (v, found) ↦ rw (found, with_entry) refl
]

pub load-gauge_set :
    (r : Metrics) (name k : String) (n : ℤ)
    → load (gauge_set name n r).gauges k ≡ (if str_eq name k then n else load r.gauges k)
unfolding gauge_set gauge
load-gauge_set r name k n =
    ground (arith, load-put (with_entry r.gauges name) name n k, load-with_entry r.gauges name k)

-- Inc raises the counter of its name by one and leaves every other counter as it reads, and Set of a
-- gauge gives its name the value and leaves every other gauge as it reads, whether the names were
-- known or not.
pub load-counter_inc :
    (r : Metrics) (name k : String) (n : ℤ)
    → (load (counter_inc name r).counters k
        ≡ (if str_eq name k then inc_int64 (load r.counters k) else load r.counters k))
      × (load (gauge_set name n r).gauges k ≡ (if str_eq name k then n else load r.gauges k))
unfolding counter_inc gauge_set counter gauge
load-counter_inc r name k n = (
  ground (
    arith,
    load-put (with_entry r.counters name) name (inc_int64 (load (with_entry r.counters name) name))
        k,
    load-with_entry r.counters name k,
    load-with_entry r.counters name name,
    eq_iff name k,
  ),
  load-gauge_set r name k n,
)
