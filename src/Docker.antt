-- ===== src/Docker.antt =====
-- The Docker engine as the deploy code sees it (docker/docker.go): an interface that answers each
-- call from the history of the run so far, and the client's operations that are made of several
-- calls. Nothing is assumed of the answers, so a theorem about a run holds for every engine.
mod Engine
mod Runs
mod Client
unfoldable pub use Engine.*
unfoldable pub use Runs.*
unfoldable pub use Client.*
