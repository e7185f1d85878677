-- ===== src/Gemini.antt =====
-- pkg/adapter/gemini.go: the conversions between Anthropic messages and Gemini requests.
pub mod Options
pub mod Tools
pub mod Media
pub mod Fold
pub mod Carrier
pub mod Contents
pub mod Request
pub mod Candidate
pub mod Response
pub mod Stops
pub mod Stream
pub mod Answer
