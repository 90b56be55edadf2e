-- ===== src/DemoFlow.antt =====
-- backend/src/services/demo-flow.ts: the guided run through a prefunding position, from the seeded
-- transaction to the verified repayment history.
pub mod Records
pub mod State
pub mod Profile
pub mod Jobs
pub mod Fixtures
pub mod Setting
pub mod Opening
pub mod Drawing
pub mod Repaying
pub mod History
pub mod Bootstrap
pub mod Frames
pub mod Laws
pub mod Order
pub mod Restart
pub mod Verified
pub mod Commitments
