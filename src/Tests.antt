-- ===== src/Tests.antt =====
-- Runs of the model on concrete inputs.
mod Net
mod Commands
mod Stream
mod Handing
mod Rtsp
mod Reports
mod Photos
mod Camera
mod Starting
mod Streaming
