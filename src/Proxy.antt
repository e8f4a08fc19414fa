-- ===== src/Proxy.antt =====
-- exfiltrate_proxy: the bridge between the TCP clients and the browser's WebSocket.
pub mod Tcp
pub mod Frame
pub mod Socket
pub mod Http
pub mod Handshake
pub mod Bridge
