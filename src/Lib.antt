-- ===== src/Lib.antt =====
-- Verification of OpenBmclAPI (Go edition): a node of a file mirror. It serves downloads to clients
-- under rate limits, picks a storage for each file, keeps tokens and subscriptions in a database, and
-- counts its traffic.
--
-- The parts, and the files that model them:
--   Limited.ApiRate: limited/api_rate.go. LimitSet is limitSet, with `try`, `release` and `clean`;
--     Middle has APIRateMiddleWare, the tick of its cleaner and ServeMiddle. Stages, Admission,
--     Periods, Cleaning and Serving are about one call, many calls, and the middleware.
--   Limited.Semaphore: limited/util.go. Semaphore over a channel; Slots has BufSlots; Holders has the
--     users of a semaphore, who open and close as ProxyReader and LimitedConn do.
--   Limited.Rate and Limited.Conn: limited/limited_conn.go. RateController and what it grants (PreRead,
--     PreWrite); the loops of Read and Write on top of it (Reads, Deliver), which use `pre_read`,
--     `after_read` and `pre_write` as the source does. Conn.ReadFrom has the loops of readFrom, the
--     closes and the deadlines.
--   Limited.Listener: limited/limited_conn.go, the listener and the dialer over a controller.
--   Sync: sync.go. Sync itself has the file set, the check of the storages and SetFilesetByExists, which
--     Missing and Fileset are about; Transfer has fetchFile and fetchFileWithBuf (Verified: what is
--     accepted; Retries: the loop); Collect has syncFiles and SyncFiles; Gc the garbage collection, to
--     which whether a Remove works is an argument;
--     Download DownloadFile, which uses Transfer's fetch_file_with_buf and the file set.
--   Cluster: cluster.go, the life cycle: Connect, WaitForEnable, Enable, disable and disconnected over
--     numbered channels (Channels, Sound, Lost); KeepAlive has the packets, their counters, which
--     handler.go's handleDownload adds to, and the interval that reconnects.
--   ApiToken: api_token.go, the three kinds of tokens, with their ids in Database.Memory (Accepted).
--   Listener: http_listener.go, maybeHTTPConn over connHeadReader (Head and Kept: what is read again;
--     Line: the first line; Stuck: a line that fills the buffer); Host: the host of a redirection.
--   Handler: handler.go, the signature of links (Signature), the routes (Routes) and handleDownload, which uses Util's
--     rotation over the storages and the counters of Cluster.KeepAlive (Failover).
--   Storage.Mount: storage/storage_mount.go, preServe and the checks of a storage (Checks).
--   Utils.Encoding: utils/encoding.go, IsHex, HexTo256 and Hex256.
--   Hijacker: hijacker.go, HjProxy.ServeHTTP with utils/crypto.go's ComparePasswd (Auth).
--   Token: token.go, GetAuthToken and the refresh behind it.
--   Database: database/db.go, the records, NotificationScopes (Scopes) and Schedule (ReportTime).
--   Database.Memory: database/memory.go, a function for each method of MemoryDB; Calls has the
--     interface DB as a type of calls, Iterate the ForEach methods; Missing and Stays are about the
--     subscriptions and webhooks.
--   Notify.Stat: notify/stat.go, StatData.update and Stats.AddHits.
--   Util: util.go, forEachFromRandomIndex and forEachFromRandomIndexWithPossibility.
--   Utils.SyncMap: utils/util.go, the shared map. Cache: cache/cache.go, the interface of caches and
--     the namespaces over one.
--   Update: update/checker.go, the order of release versions.
--   Prelude: shared types; Prelude.Int has int64 with its wrap-around, Prelude.GoMap Go's maps with nil.
--
-- Conventions. A method is a function from its arguments and the state to a reply and the new state;
-- a lock that is held throughout makes it one step. A panic is a value of the reply. Clock readings,
-- random numbers, the choice of a `select` or of the order of a map, and whatever a caller's
-- callback or a connection does, are arguments. The loop of Write runs on fuel, one unit for each
-- round; one round for each byte of the buffer is enough wherever every round writes something, and
-- readFrom takes one more, in which it finds the end of its source. The loop of fetchFile has fuel 5,
-- its number of tries, which is enough whatever the server answers. READ_HEAD
-- in maybeHTTPConn takes one unit for each chunk and one more, where there are fewer bytes than the buffer
-- holds.
--
-- Not modelled: the interleaving of two goroutines inside one operation, but for what is an argument
-- in SyncMap and Token; network, files and SQL (api.go, dashboard.go, the storages, database/sql.go, the requests of
-- sync.go and cluster.go); the notifications of the cluster; the caches that third-party packages keep; the rest of notify, log and lang;
-- start-up and configuration.
pub mod Storage
pub mod Hijacker
pub mod Handler
pub mod Listener
pub mod ApiToken
pub mod Cluster
pub mod Cache
pub mod Prelude
pub mod Limited
pub mod Database
pub mod Notify
pub mod Sync
pub mod Token
pub mod Util
pub mod Utils
pub mod Update
