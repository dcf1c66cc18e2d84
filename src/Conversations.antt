-- ===== src/Conversations.antt =====
-- Which messages belong to one conversation.
pub mod Union
pub mod Related
pub mod Forest
pub mod Joined
pub mod Linked
pub mod United
pub mod Selected
pub mod Grouped
pub mod Isolated
pub mod Tests
