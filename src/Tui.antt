-- ===== src/Tui.antt =====
-- internal/tui: the logic behind the terminal's user interface.
pub mod Query
