-- ===== src/Jobs/Interruption.antt =====
-- jobs/worker.py: what a worker does whose job is cancelled or whose lease is lost while it works.
use decision_assurance.Jobs.Repository
