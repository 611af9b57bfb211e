-- ===== src/Recorder.antt =====
-- The parts of src/session.rs that work on recorded output: the decoder of a terminal's bytes, the
-- capture of them up to a limit, and the redaction of a recording.
pub mod Utf8
pub mod Capture
pub mod Redaction
