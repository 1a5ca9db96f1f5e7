-- ===== src/Lib.antt =====
-- ha-lua, a daemon that runs Lua automations beside Home Assistant (the Go sources under ha-lua/internal).
--
-- The program: a WebSocket client receives Home Assistant's events. Each goes through the state tracker, which keeps
-- every entity's state in memory and queues a history row for SQLite, and then to the registry, which sends it to the
-- event channel of each script that wants it. A script is a runner: one goroutine with a Lua state, which takes events,
-- timer fires, MQTT messages, syslog lines and HTTP requests one at a time. The supervisor starts, stops and reloads
-- runners, the scheduler fires their timers, the router hands HTTP requests to them, the purger deletes old history, and a
-- ring buffer keeps the last log records for the debug page.
--
-- The modules:
--   Base        byte strings, maps, lists, options and results, with the functions of package strings that the source uses.
--   Mqtt        ha-lua/internal/mqtt. Topic is topic.go: ValidateFilter (validate_filter) and Match (match). Broker is client.go: the critical
--               sections of the client and what its goroutines have yet to send, as moves in any order.
--   Syslog      ha-lua/internal/syslog: parse.go, and the loop of Serve in listener.go.
--   Logwriter   ha-lua/internal/logwriter/logwriter.go, over the two files and a record that tells which calls fail.
--   Logbuf      ha-lua/internal/logbuf/logbuf.go. Ring: Buffer.append, ordered and Snapshot, the ring as a list of slots, a write
--               position that wraps and a sequence number. Handler: the slog handler, WithAttrs, WithGroup and flatten.
--   Scheduler   ha-lua/internal/scheduler/scheduler.go. Timers has the data, and two interfaces: Calendar (package time) and
--               TimerHeap (container/heap), each with the laws that theorems use. Engine has the timers table and
--               the heap as one state, and one function per method: register_every, register_at, register_after (with
--               insert_timer for insert), fire, fire_due, prune_script, remove_script, clean_orphans.
--   Tracker     ha-lua/internal/state/tracker.go. Mirror: seed, handle_state_changed, get_state. Writer: enqueue, drainQueue,
--               commitBatch and writeBatch as acts on the queue and the committed rows. History: historyPoints,
--               DurationInState and CountChanges. Queries: GetEntities, GetHistory and WhoChanged.
--   Purge       ha-lua/internal/purge/purge.go: New (well_formed) and RunOnce up to compact (run_once).
--   Runner      ha-lua/internal/lua/runner.go: Send, haEventCoalesceKey and the loop at the end of Start.
--   Client      ha-lua/internal/ha/client.go: AddEventType and the sections of connect that subscribe, and the backoff of loop. Commands has send, forget,
--               deliverResult, the goroutines of SendCommandAsync and Query, and the deferred function of connect, as moves in any order.
--   Dispatch    ha-lua/internal/lua/registry.go: Dispatch, DispatchMQTT, DispatchSyslog and DispatchToTimer, with wantsHAEvent,
--               EventTypes and Send of runner.go and MQTTFilters of api_mqtt.go.
--   Names       ha-lua/internal/ha/names.go: the registries and their lookups; Refresh has Changed and Run as acts.
--   Script      ha-lua/internal/lua/api_ha.go: what a script registers (call), the end of its load in Start of runner.go (end_load), and
--               matchRoute.
--   Handlers    ha-lua/internal/lua/runner.go, api_mqtt.go, api_syslog.go: handleEvent and what it calls, deliverInitialStates and
--               handleRequest; a handler gives the list of the protected calls that it makes.
--   Json        ha-lua/internal/lua/json.go: luaToAny over an interface to the tables of the virtual machine.
--   Exceptions  ha-lua/internal/lua/exceptions.go: the email handler with its cooldown, and the log_file handler over the two files.
--   Config      ha-lua/internal/config/config.go, Discover of ha-lua/internal/mqtt/supervisor.go, and the choice of the broker in startMQTT of
--               ha-lua/cmd/ha-lua/main.go.
--   Router      ha-lua/internal/lua/router.go: Register, Unregister, match, splitMount and ServeHTTP up to serve.
--   Store       ha-lua/internal/store/kv.go: Get, Set, Delete and GetAll of both stores.
--   Supervisor  ha-lua/internal/lua/supervisor.go with Registry.Add and Remove of registry.go: every critical section is an
--               action, and any list of actions is an interleaving.
--
-- Conventions: an instant or a duration is a number of nanoseconds, an ℕ where the source cannot make it negative and a ℤ
-- where it can. A Go map is an association list. A statement of SQL is the function on the rows of its table, in the order of
-- their ids, and a Boolean or a function on statements tells which of them fail. What the source takes from a library
-- stands as a parameter: time.Parse and time.Date, container/heap, SQLite's GLOB, filepath.Match, JSON decoding, and the tables of the Lua virtual machine.
--
-- Fuel: only fire_due has fuel, since its loop ends when no timer is due. Fuel above the number of due timers is enough when
-- every deadline that fire computes lies after now; the development also shows where it is not. The loop over the structured
-- data of a syslog line has fuel for each of its bytes, and every element takes one. to_any counts the levels that luaToAny
-- has left below its limit.
--
-- Not modelled: the Lua virtual machine and the bindings that only pass values to it, the bytes on the WebSocket and the MQTT connection, SQLite itself, HTTP
-- bodies and deadlines, goroutine scheduling inside one critical section, logging, and the command's wiring. The
-- overflow of time.Duration is not modelled either.
pub mod Base
pub mod Client
pub mod Config
pub mod Dispatch
pub mod Exceptions
pub mod Handlers
pub mod Json
pub mod Logbuf
pub mod Logwriter
pub mod Mqtt
pub mod Names
pub mod Purge
pub mod Router
pub mod Runner
pub mod Scheduler
pub mod Script
pub mod Store
pub mod Supervisor
pub mod Syslog
pub mod Tracker
