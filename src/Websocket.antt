-- ===== src/Websocket.antt =====
-- lib/websocket: frames on the wire (frame.go), lists of frames (frames.go), and what the server
-- and the client do with a frame (server.go, clientmanager.go, client.go).
pub mod Frame
pub mod Frames
pub mod Server
pub mod Client
pub mod Manager
