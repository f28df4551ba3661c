-- ===== src/Sketch.antt =====
-- src/sketch: summaries of streams.
pub mod CountMin
