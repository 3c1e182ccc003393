-- ===== src/Server.antt =====
-- The HTTP handler of miniserve/server.py: what it reads of a request, and what it answers.
pub mod Json
pub mod Post
pub mod Respond
pub mod Get
pub mod Prompts
pub mod Requests
pub mod Escapes
pub mod Replies
pub mod Outcomes
pub mod Answered
