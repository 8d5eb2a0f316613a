-- ===== src/Page.antt =====
-- templates.rs: the values that are put into the pages.
pub mod Escape
pub mod Context
mod Tests
