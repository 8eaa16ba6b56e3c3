-- ===== src/Lib.antt =====
-- HyPanel: the panel's services over their database, the live users of its Hysteria2 inbounds, and the
-- trackers of its core.
--
-- The panel keeps clients in a database. Each client has a password, a quota and a list of inbounds. A
-- job resets and disables clients (DepleteClients); an administrator bans them (BanClient). Both hand
-- the inbounds that are touched to ApplyUserChanges, which brings the running core up to date: a
-- Hysteria2 inbound is given its new users in place, and its server closes the sessions of those who
-- are gone; other inbounds are restarted. The core counts the traffic of each connection under the
-- name that its handshake was given, and the tracker remembers connections so that they can be closed.
-- Whoever saves clients is given the inbounds to bring up to date. An outbound is put into the running
-- core and then into its table. Requests, jobs and goroutines start and stop the core at once, and one
-- flag keeps their starts apart. A client fetches its links as a subscription; a link is made of an
-- inbound and a client, and read as an outbound.
--
-- Files, and the code that they model:
--   Arrays              util/common/array.go: UnionUintArray, DiffUintArray
--   Hysteria            forks/patched-files/sing-quic/hysteria2/service.go: users and sessions
--   Hysteria/Handshake  the same file: ServeHTTP, dispatchStream, handleStream
--   Hysteria/Stream     the same file: serverConn
--   Hysteria/Eviction   what RetainUsers closes; Hysteria/Reachable: histories of a server
--   Tracker/Conn        core/tracker_conn.go; Tracker/Conn/Closing and History: its properties
--   Tracker/Stats       core/tracker_stats.go; Separation, Drain and Routing below it: its properties
--   Core                core/endpoint.go: hysteria2Inbound, UpdateInboundUsers
--   Database            database/model: the rows; Database/Tx: gorm's transactions and statements
--   Inbounds            service/inbounds.go: hy2Users, UpdateInboundUsers, ApplyUserChanges; Config below
--                       it: the users in a config; Restart: RestartInbounds, UpdateOutJsons and
--                       GetAllConfig; Restart/Kept and Restart/Written: what RestartInbounds and
--                       UpdateOutJsons leave alone; Types: the ids of Hysteria2 inbounds; Save: Save;
--                       Save/Removed: the rows behind a deletion
--   Core/Inbounds       core/endpoint.go: AddInbound, RemoveInbound
--   Clients/Reset       service/client.go: ResetClients; Clients/Deplete: DepleteClients
--   Clients/Limits      the conditions on quota and expiry in service/client.go and service/config.go
--   Clients/Ban         service/config.go: BanClient
--   Jobs                cronjob/depleteJob.go; Jobs/Depleted: the live users after a run
--   Stats               service/stats.go: SaveStats; Stats/Buckets: downsampleStats
--   Clients/Save        service/client.go: Save; Edited and Removed below it: what the core has to be
--                       told of an edit and of a removal
--   Clients/Links       service/client.go: the links of clients; Detached: the removal of an inbound
--   Users               service/user.go: logins, passwords and tokens of the panel
--   Settings            service/setting.go; Stored, Paths and Uri below it: its properties
--   Outbounds           service/outbounds.go and database/model/outbounds.go; Core/Managed: the core's
--                       part of it; Rows, Synced, Saved and Deleted below it: the rows and the live outbounds
--   Launcher            service/config.go and core/main.go: start and stop of the core; Lock and
--                       Boxes below it: interleaved calls, and calls one after the other
--   Sub                 sub/subService.go and sub/linkService.go; Sub/Unlimited: what clients are told
--   Util                database/model/inbounds.go: the JSON of an inbound; Params, Gen, Rates, Vmess and
--                       Generator below it: util/genLink.go; Query, Parse, Vmess/Decode and Decode:
--                       util/linkToJson.go; OutJson: util/outJson.go; Query/*, Back and OutJson/*: what is
--                       read back of a link, and what FillOutJson writes
--   Base/Value          JSON values, as encoding/json decodes them into interface{}
--   Examples            the theorems at concrete inputs
--
-- State and operations. A function of the source has its name in snake case. A struct is a record and
-- a Go map an association list (Base/Assoc); where Go ranges over a map in an unspecified order, the
-- order is a parameter (Arrays.MapOrder). Integers of 64 bits are bit patterns below 2 ^ 64 with their
-- wrap-around written out (Base/Int64); SQLite's sums do not wrap. An error is a value (Base/Outcome).
-- Code on the database is a function of a World, which holds the tables, the core, LastUpdate and, for
-- each statement to come, whether it fails (Database/Tx). A session or a connection is named by a
-- number, atomic counters are cells of a heap that maps and connections share, and time is an
-- argument. All loops are structural recursion, so that no fuel is needed.
--
-- Parameters. JSON text is read by the functions of Database.Json.Json, as encoding/json and SQLite
-- do; RestartInbounds is an argument of ApplyUserChanges, of which Inbounds/Restart/Kept shows what its callers
-- rely on; the setting that GetHy2LiveUpdate returns is a parameter, and so are, where links are made and read, net/url, net, strconv, base64 and
-- JSON text (Util.GoLib), of which JSON numbers are whole and not negative; the links that clients are
-- saved with, and base64, formatted numbers, strconv and the file system where settings need them; what
-- sing-box answers to a start or a stop, its managers of outbounds (Core.Managed.Manager) and inbounds
-- (Core.Inbounds.InboundManager), SQLite's json_extract in the users of a config
-- (Inbounds.Config.InboundLib), and the text of a token that common.Random makes; the constants of the
-- Hysteria2 protocol package are Hysteria.Handshake.Protocol; sing's counter connections are known by
-- Tracker.Stats.Routing.Counts.
--
-- Not modelled: QUIC, HTTP/3 and UDP relay of sing-quic; sing-box itself; gorm and SQLite; the HTTP
-- API and the web pages, which call the services; subscriptions for clash and sing-box;
-- Save of ConfigService and of the services other than clients, inbounds and outbounds; logging,
-- metrics, warp and backups, which are I/O.
pub mod Base
pub mod Arrays
pub mod Hysteria
pub mod Tracker
pub mod Core
pub mod Database
pub mod Inbounds
pub mod Clients
pub mod Stats
pub mod Users
pub mod Util
pub mod Settings
pub mod Launcher
pub mod Outbounds
pub mod Jobs
pub mod Sub
pub mod Examples
