-- ===== src/Staking/Value.antt =====
-- What a deposit and a withdrawal at one exchange rate are worth.
