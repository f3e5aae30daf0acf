-- ===== src/PiSem/Tests.antt =====
-- C/pi_sem.h with two processes.
