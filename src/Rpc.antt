-- ===== src/Rpc.antt =====
-- The JSON-RPC interface (zallet/src/components/json_rpc).
pub mod Error
