-- ===== src/Lib.antt =====
-- The firmware of zhac-mono-core is a Zigbee hub on one ESP32-S3: a gateway (WiFi, REST,
-- WebSocket, MQTT) in main/, and shims in components/ that replace the link between two chips.
-- This library models the gateway's own logic and proves what its parts promise.
--
-- The parts and their files:
--   - Utf8, JsonWriter, Json: main/json_buf.h. utf8_seq_len and utf8_safe_copy are in Utf8;
--   Utf8/Encoding is an independent account of UTF-8. JsonWriter is the class of that name, a
--   record with the buffer's bytes, the position and the flag; JsonWriter/Memory, Append, Escape
--   and Meaning carry its laws, Json the shape of a JSON text.
--   - Groups: main/groups_store.cpp and groups_store.h, over Groups/Storage, the interface of NVS.
--   Groups/Table is the abstract table of 32 slots; Refines and Create say what the operations do
--   to it.
--   - Document: JSON documents as the handlers read and build them with ArduinoJson; `JsonLib` is
--   its deserializeJson and serializeJson.
--   - Groups/Api: main/api_groups.cpp, the functions that the REST routes and the WebSocket
--   commands for groups share. Listing is about group.list, Members about the member array and the
--   command to all members, Kept about create and update followed by get, Rest the routes.
--   - Options: main/device_options.cpp, over device_shadow and a namespace of NVS. Keys is the
--   text of a device's key, Kept the way from a set through the flash to the next boot.
--   - Devlist: main/devlist_page.h. Next is devlist_next, the choice of the next device of a page;
--   Escape is json_escape and devlist_row, whose memory bound is in Escape/Row. Page is
--   device.list of main/ws_bridge.cpp: the row of a device, the loop of a page and the list in
--   pool order; Walk says what a page holds, Pages what a client gets that follows next_cursor,
--   Local what the local reply holds.
--   - Bridge: main/ws_bridge.cpp. World holds the interfaces of the components that it reaches,
--   the state and the actions; Reply the replies; Push the events; Devices, GroupVerbs, RuleVerbs
--   and ScriptVerbs the commands, a cmd_ function each; Verbs the names; Dispatch
--   dispatch_envelope with its gate and ws_rx. Dispatch/Gate is about who gets in,
--   Dispatch/Replies about the answers.
--   - Auth: main/auth.cpp. Lockout is the table of failed sign-ins, Token the gate and the
--   rotation, Password the stored hash, Requests and Routes the three handlers, Boot auth_init.
--   State is the record of the file's variables, Storage the interface of NVS.
--   - Wifi: main/wifi.cpp. Creds is about the stored network and the boot, Events about the
--   driver's events and the scan; Api is the routes of main/api_wifi.cpp.
--   - System: main/sys_state.cpp and the settings of main/api_system.cpp. Restart is about the
--   switches and the time zone, Refused about settings that are turned away; Api is the routes and
--   the diagnostics.
--   - Scripts: of main/api_scripts.cpp the reading of a path.
--   - LogRing: main/log_ring.cpp. The parent is the ring and its snapshot for /api/logs, Lines the
--   cleaning and parsing, Body the JSON body, Sinks the state of the file and what is sent over
--   MQTT and WebSocket.
--   - Prelude: shared names and lemmas. Examples: the theorems at concrete inputs.
-- How they interact: a frame of a socket goes through ws_rx and dispatch_envelope, which asks
-- auth_check_token of Auth where the socket is not let in, to a command; the commands call
-- Groups/Api, Options and Devlist/Page on their part of the bridge's World, and what they send is
-- a list of actions. The group rows are written through JsonWriter, whose str uses utf8_seq_len.
-- The HTTP gate and the routes of Auth share one lockout table; rotation tells ws_server the new
-- token, which is a trace of calls here. A log line goes through Lines into the ring and then
-- through Body to the sinks.
--
-- How the code is modelled: stateful code takes the state and returns the next one; a mutex that
-- covers an operation makes it one step, and a take of the mutex that may fail is an argument
-- (Turn). A buffer is a list of its bytes, with the tests against its capacity as the code makes
-- them; a C string is its bytes before the NUL. Machine words keep their wrap-around where the
-- code can reach it.
--
-- Bounds and fuel: the loops over bytes in Utf8 and JsonWriter run on one round more than the
-- bytes, and each round takes at least one; decimal has twenty digits, which hold 64 bits;
-- grp_next_id and grp_load_all run over 32 slots; the key derivation runs 8192 rounds and the
-- comparison of secrets 32; a page's loop runs on one round more than the devices, of which each
-- round passes one; strtoull reads what is there; clean_from runs on the length of the line, of
-- which each round takes at least one byte.
--
-- Parameters, for code of other repositories or of ESP-IDF: NVS, SHA-256, the JSON library, random
-- bytes, the clock, the HTTP server's reads, the allocator, the MQTT client and its topics,
-- ws_server's clients, the Zigbee pool and radio, device_cmd, device_shadow, the rule engine and
-- the script cache, the Wi-Fi driver, the settings of MQTT, of Home Assistant and of the time
-- server. The laws that a proof needs of them are the records IsNvs, IsWs and IsZap; Examples
-- fills them. The bridge's only negative descriptor is the relay's, REMOTE_VIRTUAL_FD.
--
-- Not modelled: of main/ws_bridge.cpp the commands of the status, the diagnostics, the clock, the
-- settings, the token, Wi-Fi and the log, device.get, and the commands of the radio's settings,
-- the resets (some of which restart the hub) and the relay's client: Bridge/Dispatch hands them to
-- the parameter `others`, of which nothing is assumed; the REST routes of api_devices.cpp,
-- api_rules.cpp, api_scripts.cpp, api_status.cpp and api_remote.cpp, main.cpp, ha_glue.cpp,
-- metrics_mqtt.cpp, spa_serve.cpp, components/mono_bridge, hap_master and hap_slave, and
-- components/lua_engine and lua_cjson, which only build or hold other projects' code.
pub mod Prelude
pub mod Devlist
pub mod Bridge
pub mod Wifi
pub mod System
pub mod Utf8
pub mod Json
pub mod Document
pub mod Options
pub mod JsonWriter
pub mod LogRing
pub mod Groups
pub mod Auth
mod Examples
pub mod Scripts
