-- ===== src/RunnerStats/Tests.antt =====
-- Samples and heartbeats, and the theorems at them.
use lattice_runner.Base.{◌≡◌, ◌+◌, refl, List, [], ◌∷◌, codes, text_eq, contains_any, arith}
use lattice_runner.Scheduler.Cron.{cut_first}
use lattice_runner.RunnerStats.{sdk_total, new_collector, last_of, registry_host}
use lattice_runner.RunnerStats.Drops.{reported, last_total, reported-growth}
use lattice_runner.RunnerStats.Health.{Beat, saw, kept, log_of, Lines, log_of-Lines}

reported-growth_example :
    reported ((5, 7) ∷ (9, 9) ∷ []) (new_collector 3 2) + sdk_total 3 2
    ≡ last_total (sdk_total 3 2) ((5, 7) ∷ (9, 9) ∷ [])
unfolding sdk_total
reported-growth_example = reported-growth 3 2 ((5, 7) ∷ (9, 9) ∷ []) (omega arith)

abbrev beats : List Beat
beats =
    saw (codes "a") (codes "healthy")
    ∷ saw (codes "b") (codes "healthy")
    ∷ saw (codes "a") (codes "unhealthy")
    ∷ kept (codes "b" ∷ [])
    ∷ saw (codes "a") (codes "healthy")
    ∷ []

log_of-Lines_example :
    Lines (codes "a") (last_of (codes "a") []) beats (log_of (codes "a") beats [])
log_of-Lines_example = log_of-Lines (codes "a") beats []

own_registry : registry_host (codes "ghcr.io/a/b:1") ≡ codes "ghcr.io"
unfolding registry_host cut_first contains_any
own_registry = refl

hub : registry_host (codes "library/redis") ≡ codes "docker.io"
unfolding registry_host cut_first contains_any text_eq
hub = refl
