-- ===== src/Tests.antt =====
-- Runs of the model at concrete inputs.
mod Countdown
mod Headers
mod Grpc
mod Bodies
mod Layers
mod Listening
mod Lives
mod States
mod Serving
mod Shutting
mod Systems
mod Building
