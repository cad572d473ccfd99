-- ===== src/Lib.antt =====
-- mqttview, a web client for MQTT brokers: its message path and what guards it.
--
-- A broker's messages reach a connection (internal/mqttc/manager.go), which records each in the tree
-- of topics, in the history of recent messages and in a log per topic, and hands it to its observers:
-- the hub, which offers it to every browser, the recorder, which queues it for the database, and the
-- host of the plugins, which queues it for each plugin that asked for its topic. Payloads are
-- classified, and those of Sparkplug decoded, when they are shown. A plugin for a PLC keeps a journal
-- of edges and descriptions of points, and sends commands from an allow-list. Users sign in with a
-- password, an attempt limiter and a second factor. The HTTP API (internal/api) collects the messages
-- of a window for a caller, over a subscription that overlapping windows share.
--
--   Common       lists, bytes, maps and tests that the other modules share
--   Topic        internal/mqttc/topic.go: ValidateTopic, ValidateFilter, MatchFilter
--   Message      internal/mqttc/types.go: Message and MessageProps
--   Ring         the ring buffer that history.go and topiclog.go both write out
--   History      internal/mqttc/history.go: Add, Recent, Len, Clear
--   Tree         internal/mqttc/tree.go: Record, Value, Children, Match, Search, Graph, Clear
--   TopicLog     internal/mqttc/topiclog.go: Add, evictLocked, Entries, Previous, Span, Stats, Clear
--   Conn         internal/mqttc/manager.go: Subscribe, Unsubscribe, their ephemeral forms,
--                wantedSubscriptions, syncSubscriptions, connect, disconnect, setState, events,
--                superviseAutoConnect, handleMessage, ClearState; types.go: the subscriptions
--                of Normalize
--   Payload      internal/payload: the reader of protowire.go, sparkplug.go, detect.go
--   Plugin       internal/plugin/runtime.go: start, stopInstance, SetEnabled, SaveSettings,
--                dispatch, Subscribe and Unsubscribe of a plugin, Handler
--   Logbuf       internal/logbuf/logbuf.go: record, Records, ParseLevel
--   Hub          internal/hub/hub.go: push, wants, takeToken, BroadcastMessage, broadcast, readLoop
--   Recorder     internal/recorder/recorder.go: Configure, Observe, run, drain, prune, Stop, Stats
--   Strings      what is used of Go's strings package
--   Auth         internal/auth: attemptLimiter, VerifyTOTP, Login, CompleteLogin,
--                VerifySecondFactor, useRecoveryCode
--   Store        internal/store/twofactor.go: the table of recovery codes
--   Plc          internal/plugins/plc: journal.go, command.go with handleCommand, mapping.go
--   Api          internal/api: collect.go with handleCollect, holdFilter, releaseFilter; of
--                topic_history.go numericAt, collectNumericPaths and handleTopicSeries
--   Witness      the results at concrete inputs
--
-- A text is the list of its bytes. A method that holds a lock for its whole length is one function
-- from state to state; the clock is an argument. An int is an integer, a count that cannot be
-- negative a natural number, and a uint64 counter wraps at 2^64, where a theorem that counts says
-- that it does not. Goroutines are steps in any order (Recorder); a waiter runs over a schedule of
-- what others append between its steps (Plc.Journal); a connection's operations are a step relation
-- (Conn.Steps), and so are the windows that collect messages (Api.Windows.Leases). Loops are
-- recursion on their list; the fuel of the eviction loop is the number of topics, each round of
-- which but the last drops one; the fuel of TrimSpace is the length of the text, that of a
-- decoder's loop the number of bytes, of which each round reads one or more. A Go map is an
-- association list, and its order is the list's.
--
-- Parameters: the database but for the recovery codes, JSON, password hashes, HMAC, base32 and the
-- sealed box, each where it is used, with its error as `none`; the printing of floats and dates,
-- json.Valid, strings.ToLower where it meets letters outside ASCII, and the plugins behind their
-- interface. Not modelled: sockets, HTTP routing, the rest of the SQL, the MQTT client libraries,
-- single sign-on, the Home Assistant plugin, and the manager's map of connections with its
-- restarts.
pub mod Common
pub mod History
pub mod Tree
pub mod Hub
pub mod Logbuf
pub mod Message
pub mod Plc
pub mod Ring
pub mod Plugin
pub mod Payload
pub mod Topic
pub mod TopicLog
pub mod Witness
pub mod Recorder
pub mod Strings
pub mod Store
pub mod Auth
pub mod Api
pub mod Conn
