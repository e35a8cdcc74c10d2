-- ===== src/Dns.antt =====
-- lib/dns: the messages of DNS and the cache of answers.
pub mod Result
pub mod Name
pub mod Stand
pub mod Header
pub mod Question
pub mod Record
pub mod Message
pub mod Answers
