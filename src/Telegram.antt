-- ===== src/Telegram.antt =====
-- app/telegramsearch: the search in the histories of Telegram chats.
mod Tests
pub mod Threads
pub mod Embeddings
