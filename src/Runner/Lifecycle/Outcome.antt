-- ===== src/Runner/Lifecycle/Outcome.antt =====
-- How a life of a service ends.
