-- ===== src/Bridge.antt =====
-- main/ws_bridge.cpp: the WebSocket commands, their dispatch, and the events pushed to the clients.
pub mod World
pub mod Reply
pub mod Push
pub mod Devices
pub mod GroupVerbs
pub mod RuleVerbs
pub mod ScriptVerbs
pub mod Verbs
pub mod Dispatch
