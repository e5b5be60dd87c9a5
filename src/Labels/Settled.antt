-- ===== src/Labels/Settled.antt =====
-- The observer of `startAmPmObserver`: its own changes do not make it run for ever.
