-- ===== src/PiSem/Once.antt =====
-- C/pi_sem.h: who has initialised the mutex, and where.
