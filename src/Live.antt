-- ===== src/Live.antt =====
-- The shared WebSocket of frontend/components/shared/WebSocketProvider.tsx.
pub mod Socket
pub mod SocketLaws
pub mod Delivery
pub mod Refinement
pub mod Examples
