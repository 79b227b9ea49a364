-- ===== src/Extraction.antt =====
-- app/pipeline/extraction.py and app/pipeline/prompts.py: prompts, the output model, the two language
-- models behind the circuit breaker, and what is made of their answers.
pub mod Prompt
pub mod Coercion
pub mod Chain
pub mod Fields
pub mod Fallback
