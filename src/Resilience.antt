-- ===== src/Resilience.antt =====
-- src/agents_protocol/resilience.py: circuit breaker, retry policy and timeout. Times and delays
-- are whole numbers of one unit (microseconds, say), the clock's readings are arguments, and a
-- random draw is the number of thousandths that `random.random()` stands for.
pub mod Breaker
pub mod Retry
