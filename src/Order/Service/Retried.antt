-- ===== src/Order/Service/Retried.antt =====
-- A confirmation that is sent again: proofs about Service.antt.
use tteeka.Schema.{Order}
