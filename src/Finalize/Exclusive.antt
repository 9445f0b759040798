-- ===== src/Finalize/Exclusive.antt =====
-- Two finalizations of one loaded state (integrated_workflow.py).
