-- ===== src/Tests.antt =====
-- Concrete inputs: every property with a hypothesis at an input where it holds, and runs of the code.
mod Samples
mod ClearRuns
mod CompactionRuns
mod CoreRuns
mod CredentialRuns
mod DeliveryRuns
mod FlagRuns
mod HarnessRuns
mod HookRuns
mod IdleRuns
mod InboxRuns
mod StoreRuns
mod UsageRuns
