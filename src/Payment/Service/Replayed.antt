-- ===== src/Payment/Service/Replayed.antt =====
-- A verification that is asked for again: proofs about Service.antt.
