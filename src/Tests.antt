-- ===== src/Tests.antt =====
-- Runs at concrete inputs, and the theorems applied to concrete inputs.
mod Ascii
mod Bytes
mod Dns
mod Websocket
