-- ===== src/Rewards.antt =====
-- src/profile: what is paid for posts on X (services/profile-x-posting-reward.service.ts).
pub mod Payout
pub mod Streak
pub mod Slot
mod Tests
