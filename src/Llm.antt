-- ===== src/Llm.antt =====
-- app/services/llm: what models accept, and how requests are shaped for them.
pub mod Capabilities
pub mod Chat
pub mod Models
pub mod Registry
pub mod Specs
pub mod Prompts
pub mod Summarizer
