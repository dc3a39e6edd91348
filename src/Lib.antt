-- ===== src/Lib.antt =====
-- youtube-ar: the API server and its workers under api/.
--
-- The server creates a row for a url in the database and puts an event for it on two queues in
-- Redis. A worker takes an event from the queue of downloads, locks the row, runs tor and
-- youtube-dl, puts the file into the storage and unlocks the row with the file or the error; another
-- takes an event from the queue of oEmbed data and stores them in the row. A retrier takes the
-- events of failed downloads and creates a new row for their url where the log calls for it; a
-- playlist loader creates a row for each new video of a playlist.
--
-- Base holds what the other modules share: texts as lists of codes, Go's errors (GoError), results
-- and the state-passing monad M with do blocks, contexts that are live or done.
--
--   Model         api/model/model.go: the rows, ShouldRetry
--   Query         api/query/query.go: the parameters of listings
--   Sql           statements as syntax trees, a connection as an interface (Querier); Sql.Meaning
--                 gives the statements that the program builds their documented effect on tables and
--                 the columns that they give back,
--                 with the schema's defaults and triggers; Sql.Postgres states that a connection has
--                 this effect and what a transaction does; Sql.Memory is a connection that does
--   Store         api/store/store.go, one function for each method; Store.Transaction is
--                 api/store/transaction.go; Store.Rows is about the row with an id,
--                 Store.Ids about how ids are given, Store.Lookup about a url from its creation to
--                 its deletion, Store.Pages about listings page by page, Store.Logs about
--                 polling a log
--   Redis         the commands as an interface with the laws that Redis documents; Redis.Memory is an
--                 instance, whose LPUSH fails on chosen keys; Redis.Logged is the client of
--                 api/broker/redis/redis.go, which logs every command
--   Log           api/log: fields, lines, logfmt; Log.Http the transport of api/log/http/http.go,
--                 Log.Sql the hooks of api/log/sql/sql.go
--   Broker        api/broker/broker.go: Send, Receive, PopNextFailed, RemFailed. A handler's panic is
--                 an outcome. Broker.Lists is about the lists under Receive and Broker.Rest about the
--                 rest of the state, Broker.Delivery is about one call of Receive, Broker.Race about the
--                 goroutine, the channel and the select as steps that interleave, Broker.Fifo
--                 about sequences of calls, Broker.Logged about the client that logs
--   Event         api/event/event.go, api/payload/payload.go, with the JSON text of an event
--   Manager       Manager.Server is api/manager/server.go, Manager.Server.Queues is about what
--                 CreateURL leaves; Manager.Worker is api/manager/worker.go,
--                 with the deferred unlock that runs after errors and panics. Manager.Worker.Settles
--                 is about one call of DownloadURL, Manager.Worker.Status about all rows under the
--                 store's statements in any order
--   Worker        api/worker/worker.go, api/worker/handler/handler.go; Worker.Delivery joins the
--                 broker, a handler and the manager, Worker.Drain is about the loop over a
--                 queue, Worker.Posted about a url from its creation to the end of its download
--   Service       Service.Retrier is api/service/retrier.go, with Service.Retrier.Next about one
--                 automatic retry, Service.Retrier.Bound about chains of them and
--                 Service.Retrier.Removal about a retry by hand; Service.Playlist is
--                 api/service/playlist-loader.go, Service.Playlist.Atomic is about its transaction,
--                 Service.Playlist.Once and Service.Playlist.Loaded about the rows of videos
--   Youtube       api/youtube/youtube.go: a playlist's videos, page by page; Youtube.Pages
--                 describes the pages as the service links them
--   Process       what a child process prints and how it ends
--   Tor           api/tor/tor.go; Youtubedl: api/youtubedl/youtubedl.go: their streams of events
--   Storage       api/storage/storage.go
--   Downloader    api/downloader/downloader.go: a download from the two streams of events;
--                 Downloader.Ending is about its result
--   Resource      api/resource/resource.go: what the API shows of a row
--   Server        api/server/mux.go, the routes of api/server.go, api/server/handler,
--                 api/server/middleware. Server.Mux.Dispatch is about any routes,
--                 Server.Routes.Paths about the registered ones, Server.Middleware.Status about
--                 the status that is logged; Server.Number is ParseInt on the ids of paths, with
--                 Server.Number.Printed and Server.Number.Octal about printed ids; Server.Api puts the
--                 handlers behind the router and the middleware, as runServer does, and
--                 Server.Api.Created is about a url that is posted and asked for
--   Oembed        api/oembed/oembed.go and api/oembed/providers.go, with its table of providers; Oembed.Glob
--                 is filepath.Match on their patterns, Oembed.Known is about the table
--   Cmd           api/cmd.go: the commands, with the package flag in Cmd.Flags; Cmd.Create and Cmd.Limit
--                 are about create-url and list-logs
--   Main          api/main.go, api/new.go, api/worker.go and the ends of the servers of api/server.go
--   Tests         runs on concrete inputs and instances of the theorems
--
-- State is passed explicitly: an operation on the database or on Redis is a function from the state
-- to a result and a new state. World of Broker joins the state of Redis, what has been logged and
-- the rest, which is a database connection where a component uses both. Between two calls of one
-- operation no other process writes; Manager.Worker.Status and Broker.Race are about interleavings.
-- An int64 is the natural number of its two's complement, and additions wrap.
--
-- Redis, the database, the oEmbed and YouTube services, JSON decoding, HTML parsing, the storage and
-- the child processes are parameters. What is used of them is a law of the interface that they are
-- passed as, or a hypothesis of the theorem. The errors that the downloader only logs are dropped.
--
-- Loops follow a list, except the loop over a playlist's pages, whose number of rounds is a
-- parameter. Its result is `none` where the rounds do not suffice; Youtube.Pages states how many
-- do. A client's requests for pages of a listing, in Store.Pages, have a number of rounds too:
-- Store.Pages.Complete states how many are enough.
--
-- Not modelled: the listeners, the signals and the errgroups, of which Main and Worker take what they
-- do first as a parameter; the frontend. The time of a log entry is a parameter, `%q` of a text is
-- that of printable characters. Where the package flag ends the process, its status is left open.
pub mod Base
pub mod Model
pub mod Query
pub mod Sql
pub mod Store
pub mod Redis
pub mod Log
pub mod Broker
pub mod Event
pub mod Manager
pub mod Worker
pub mod Service
pub mod Youtube
pub mod Process
pub mod Tor
pub mod Youtubedl
pub mod Storage
pub mod Downloader
pub mod Resource
pub mod Server
pub mod Oembed
mod Tests
pub mod Cmd
pub mod Main
