-- ===== src/Widgets.antt =====
-- The demo's widgets over a shared document, in examples/actioncable-demo/frontend/src.
pub mod Kanban
pub mod Whiteboard
