-- ===== src/Tests.antt =====
-- Runs of the code on sample states, and the theorems at them.
mod Samples
mod Numbers
mod Staking
mod Mining
mod Rounds
mod Payments
mod Plays
mod Stakes
mod Claims
mod Otc
mod Boards
mod Referrals
mod Clients
mod Spending
