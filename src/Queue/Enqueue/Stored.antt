-- ===== src/Queue/Enqueue/Stored.antt =====
-- What `enqueueAction` leaves in the memory and the storage, for the user and for all others.
