-- ===== src/Names.antt =====
-- Container names: the deploy suffixes of docker/docker.go, the canonical name of
-- docker/logstreamer.go, the variants that deploy/rolling.go looks up, and the name check of
-- deploy/executor.go (validate.go has the same function once more).
pub mod Cut
mod Canonical
mod Variants
mod Tests
unfoldable pub use Canonical.*
unfoldable pub use Variants.*
