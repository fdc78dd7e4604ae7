-- ===== src/Llm.antt =====
-- EaLlmClient (src/ea_llm_client.cpp).
pub mod Url
pub mod Client
pub mod Target
