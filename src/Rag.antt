-- ===== src/Rag.antt =====
-- backend/app/rag: the bounded walk of a repository, chunking and retrieval.
pub mod Safety
pub mod Chunking
