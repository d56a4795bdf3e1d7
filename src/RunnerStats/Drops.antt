-- ===== src/RunnerStats/Drops.antt =====
-- No drop of the SDK is reported twice, and none is left out.
use lattice_runner.Base.{ℕ, ◌+◌, ◌≤◌, ◌≡◌, List, [], ◌∷◌, arith}
use lattice_runner.RunnerStats.{Collector, sdk_total, new_collector, sample}

-- The totals that the SDK gives at the samples, in turn, and what the samples report together.
pub reported : List (ℕ × ℕ) → Collector → ℕ
reported [] c = 0
reported ((dropped, total) ∷ rest) c =
    (sample dropped total c).1 + reported rest (sample dropped total c).0

pub last_total : ℕ → List (ℕ × ℕ) → ℕ
last_total t [] = t
last_total t ((dropped, total) ∷ rest) = last_total (sdk_total dropped total) rest

-- Totals that do not fall.
abbrev pub Grow : ℕ → List (ℕ × ℕ) → Type 0
Grow t [] = Unit {0}
Grow t ((dropped, total) ∷ rest) =
    (t ≤ sdk_total dropped total) × Grow (sdk_total dropped total) rest

reported_from :
    (samples : List (ℕ × ℕ)) (c : Collector)
    → Grow c.last_sdk_drops samples
    → reported samples c + c.last_sdk_drops ≡ last_total c.last_sdk_drops samples
unfolding reported last_total sample
reported_from [] c g = omega arith
reported_from ((dropped, total) ∷ rest) c g =
    let next : Collector = record { last_sdk_drops = sdk_total dropped total } in
    let later : reported rest next + sdk_total dropped total
        ≡ last_total (sdk_total dropped total) rest =
      reported_from rest next g.1 in
    ground (arith, g.0, later)

-- The samples report each drop of the SDK once: where the totals do not fall, the drops that the
-- samples of a new collector report add up to the growth of the total since the collector was made.
pub reported-growth :
    (dropped total : ℕ) (samples : List (ℕ × ℕ))
    → Grow (sdk_total dropped total) samples
    → reported samples (new_collector dropped total) + sdk_total dropped total
      ≡ last_total (sdk_total dropped total) samples
unfolding new_collector
reported-growth dropped total samples g = reported_from samples (new_collector dropped total) g
