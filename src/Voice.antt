-- ===== src/Voice.antt =====
-- rtc_server_node/RTCServerNode/rtc_voice_activity: voice activity detection.
pub mod Pcm
pub mod Stt
pub mod Sending
pub mod Chunks
pub mod Overflow
pub mod Labels
pub mod Resampler
pub mod Legacy
pub mod Rnnoise
