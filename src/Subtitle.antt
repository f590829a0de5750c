-- ===== src/Subtitle.antt =====
-- internal/webvtt: the WebVTT file of a subtitle attached to a title.
pub mod Time
pub mod Cues
