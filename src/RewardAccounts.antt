-- ===== src/RewardAccounts.antt =====
-- The accounting of rewards: what the budgets say against the grants, and that every transaction
-- of the settlement service keeps the two equal.
pub mod Balance
pub mod Settled
pub mod Effects
pub mod Moves
pub mod Keeps
pub mod Steps
pub mod Careful
pub mod Passes
pub mod Recovery
pub mod Payment
