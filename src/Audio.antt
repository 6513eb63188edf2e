-- ===== src/Audio.antt =====
-- main/audio_io.c: the agent's speech on its way to the speaker, the microphone's on its way up.
pub mod Buffer
pub mod Play
pub mod Queued
pub mod Carry
pub mod Stream
pub mod Speaker
pub mod Tune
pub mod Requests
pub mod Drain
pub mod Whole
pub mod Runs
pub mod Calls
pub mod Spoken
pub mod Heard
pub mod Levels
pub mod Kept
pub mod Reboot
pub mod Denoise
pub mod Uplink
pub mod Voice
pub mod Mic
pub mod Sending
mod Tests
pub mod Rechunk
pub mod Blocks
pub mod Delay
