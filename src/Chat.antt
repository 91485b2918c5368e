-- ===== src/Chat.antt =====
-- The conversation with the language model: src/conversations.
pub mod Loop
pub mod Tools
pub mod Streams
