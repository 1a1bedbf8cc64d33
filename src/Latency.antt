-- ===== src/Latency.antt =====
-- latency.rs: the last samples of each metric, and their percentiles.
mod Examples
pub mod Rank
use polymarket_watch_rust.Base.BTreeMap.{BTreeMap, insert, lookup}
use polymarket_watch_rust.Base.Lists.{get_elem?, length}
use polymarket_watch_rust.Base.Tests.{
  List, Option, String, [], if◌then◌else◌, leb, ltb, none, some, ℕ, ◌*◌, ◌++◌, ◌+◌, ◌-◌, ◌/◌, ◌==◌,
  ◌∷◌,
}

pub record LatencySummary : Type 0 where
  pub samples : ℕ
  pub p50_us : ℕ
  pub p95_us : ℕ
  pub p99_us : ℕ
  pub max_us : ℕ

pub record LatencyRecorder : Type 0 where
  pub max_samples_per_metric : ℕ
  pub samples : BTreeMap (List ℕ)

abbrev pub default_max_samples : ℕ
default_max_samples = 4096

unfoldable pub new : ℕ → LatencyRecorder
new max_samples = record {
  max_samples_per_metric = (if max_samples == 0 then 1 else max_samples);
  samples = [];
}

-- `while values.len() > max { values.pop_front() }`
unfoldable pub pop_excess : ℕ → List ℕ → List ℕ
pop_excess limit [] = []
pop_excess limit (v ∷ vs) =
    let rest = pop_excess limit vs in if ltb limit (length (v ∷ vs)) then rest else v ∷ vs

-- `entry(name).or_default()`
abbrev pub samples_of : String → LatencyRecorder → List ℕ
samples_of name r = elim (lookup name r.samples) [ none ↦ [] | some vs ↦ vs ]

-- `record`
unfoldable pub record_sample : String → ℕ → LatencyRecorder → LatencyRecorder
record_sample name value_us r = record r {
  samples =
      insert name (pop_excess r.max_samples_per_metric (samples_of name r ++ value_us ∷ []))
        r.samples;
}

unfoldable pub insert_value : ℕ → List ℕ → List ℕ
insert_value x [] = x ∷ []
insert_value x (y ∷ ys) = if leb x y then x ∷ y ∷ ys else y ∷ insert_value x ys

-- `sort_unstable`, on numbers
unfoldable pub sort_values : List ℕ → List ℕ
sort_values [] = []
sort_values (x ∷ xs) = insert_value x (sort_values xs)

abbrev pub clamp : ℕ → ℕ → ℕ → ℕ
clamp low high n = if ltb n low then low else if ltb high n then high else n

-- `div_ceil(100)`
abbrev pub rank : ℕ → ℕ → ℕ
rank pct n = (clamp 1 100 pct * n + 99) / 100

unfoldable pub percentile : List ℕ → ℕ → Option ℕ
percentile [] pct = none
percentile (v ∷ vs) pct =
    get_elem? (sort_values (v ∷ vs)) (rank pct (length (sort_values (v ∷ vs))) - 1)

pub p95 : String → LatencyRecorder → Option ℕ
p95 name r = elim (lookup name r.samples) [ none ↦ none | some vs ↦ percentile vs 95 ]

-- `iter().max()`
abbrev pub maximum : List ℕ → Option ℕ
maximum [] = none
maximum (v ∷ vs) = elim (maximum vs) [ none ↦ some v | some m ↦ some (if ltb m v then v else m) ]

and_then : {A B : Type 0} → Option A → (A → Option B) → Option B
and_then none f = none
and_then (some a) f = f a

pub summarize : List ℕ → Option LatencySummary
unfolding and_then
summarize vs = and_then (percentile vs 50) λ p50. and_then (percentile vs 95) λ p95.
    and_then (percentile vs 99) λ p99. and_then (maximum vs) λ max.
      some (record { samples = length vs; p50_us = p50; p95_us = p95; p99_us = p99; max_us = max })

pub summary : String → LatencyRecorder → Option LatencySummary
summary name r = elim (lookup name r.samples) [ none ↦ none | some vs ↦ summarize vs ]

summaries_of : BTreeMap (List ℕ) → BTreeMap LatencySummary
summaries_of [] = []
summaries_of ((name, vs) ∷ rest) = elim (summarize vs) [
  | none ↦ summaries_of rest
  | some s ↦ (name, s) ∷ summaries_of rest
]

pub summaries : LatencyRecorder → BTreeMap LatencySummary
summaries r = summaries_of r.samples
