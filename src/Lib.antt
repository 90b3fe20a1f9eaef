-- ===== src/Lib.antt =====
-- wppconnect-server-go: a server that owns WhatsApp sessions and offers them over HTTP. A session
-- reports events; the event bus stores each one in a durable log and delivers it to its targets
-- with leases and retries; the older webhook dispatcher delivers from a queue in memory. The session
-- manager decides which sessions are live and which come back after a restart. Each session has a
-- bounded history of its messages, an index of its chats and an archive of media in object storage.
--
-- The files and the code they model:
--   * Prelude, Table: shared names; results with errors, dictionaries, SQL statements on lists.
--   * EventLog: internal/eventbus/store.go. The record Log has the two tables, the AUTOINCREMENT
--     counter and the row of bus_stats; append, list, claim, finish, replay and stats are the
--     methods of Log, transactions included. A failed transaction returns no new log.
--   * Bus: internal/eventbus/bus.go and the HTTP target of internal/eventbus/targets.go. publish is
--     Publish, worker_round is one turn of worker's loop, verdict and settle what it writes back.
--     Bus/Attempts puts publishers, workers and replays into one step relation, in which they
--     interleave freely, and a worker may be as slow as it likes between claim and settlement.
--   * Webhook: internal/webhook/dispatcher.go. post, work (one turn of worker), deliver_from (the
--     loop of deliver) and close are its methods; the queue is a list.
--   * Sessions: internal/session/manager.go, restore.go and settings.go. Manager has the map of live
--     sessions, the session files, and the handles that were given up. start, close, logout,
--     permanent, update_settings, drain and restore_list are its methods. They hold the lock `op`
--     throughout, so that each is one step; restore_list takes it for each session in turn.
--   * Media: internal/media/store.go. remember and get are Remember and Get; a list element's
--     address is a number. Media/Fifo has the queue that the cache implements; Media/Messages is
--     Unwrap and attachment, and Media/Texts is Filename of internal/media/media.go.
--   * History: internal/history/store.go. Store has the tables and the row of history_stats that the
--     triggers keep; put is Put with prune, History/Reads has Get, Find and List, History/Edits has
--     MarkRead, ChangeAt, Purge and Receipt. History/Labels and History/Polls are metadata.go, and
--     History/Attachments is attachments.go. edit, vote and poll_results read the message with a call
--     of the database of its own, so they take the state that this call saw and the state that the
--     next one finds; a purge in between may leave a vote without its message until the next prune.
--   * Vault: internal/vault/vault.go over the interface Objects and the table of History/Attachments.
--     archive, download, delete and cleanup are Archive, Download, Delete and Cleanup.
--   * Admin: internal/httpapi/admin.go, the sessions of administrators and their logins. begin_login
--     and finish_login are the parts of adminLogin before and after it reads the body, when it does
--     not hold adminMu; admin_credentials, admin_only and admin_logout are the other handlers.
--   * Presence: internal/directory/presence.go and State of internal/directory/index.go. observe and
--     get_presence are the methods of PresenceCache; begin_signal and end_signal are Signal before and
--     after its timer, reset_presence and close_state are ResetPresence and Close.
--   * Directory: the chat index of internal/directory/index.go. patch and transaction are the
--     functions of these names, handle is Message and Event. The cut of a name to 256
--     runes is an argument.
--   * Config: internal/config/config.go. load is Load; a failure is the name of the variable.
--     history_options and bus_options are what run of cmd/server/main.go makes of it.
--
-- Conventions. Every call of the database, of the file system or of the network may fail: an
-- argument says which do. Clocks, UUIDs, leases and jitter are arguments too, as are the encoders of
-- encoding/json, url.Parse and the readers of Retry-After; a theorem that needs something of them
-- says so. Times of the log are milliseconds, durations are nanoseconds; int64 and uint64 wrap
-- around where the code computes with them. No loop needs fuel: each is structural in the list that
-- it goes over or in the attempts that are left.
--
-- Not modelled: the HTTP routes but the administration's sessions, the message and media builders, the
-- groups and their notifications, the import of history syncs into the message history, the tokens and
-- the commands; the adapters that build payloads; and SQLite, whatsmeow, the object store and the
-- brokers themselves.
mod Prelude
pub mod Table
pub mod EventLog
pub mod Bus
pub mod Webhook
pub mod Sessions
pub mod Media
pub mod Config
pub mod History
pub mod Vault
pub mod Admin
pub mod Presence
pub mod Directory
