-- ===== src/Deploy.antt =====
-- Package deploy: the specification (deploy/executor.go), the clean-up before a deployment, the
-- strategies (deploy/rolling.go, deploy/bluegreen.go, deploy/canary.go), the verification after it
-- and the run of a whole deployment.
pub mod Spec
pub mod Cleanup
pub mod Rolling
pub mod Canary
pub mod Verify
pub mod BlueGreen
pub mod Execute
pub mod Locks
mod Tests
