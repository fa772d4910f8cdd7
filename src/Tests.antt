-- ===== src/Tests.antt =====
-- Runs on small inputs.
mod Wire
mod Packet
mod Stream
mod Handler
mod Net
mod Redial
mod Conn
mod Service
mod App
mod Conf
mod Setup
mod Listen
mod RawSend
mod Udp
mod Bridge
mod Services
