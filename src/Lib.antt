-- ===== src/Lib.antt =====
-- A model of the vidmerce backend: accounts, likes, views, the feed and the statistics of videos.
--
-- The API process answers requests from Redis and puts likes and views on two streams there; workers
-- drain the streams into Postgres (likes) and ClickHouse (views); a reconciler repairs the counters
-- of likes; the feed and the statistics read what the workers wrote. The parts meet in the store of
-- Redis, an interface of commands with their documented laws, and in the entries of the streams.
--
-- Prelude and Prelude/ have what all parts share: lists measured by native numbers, bytes, 64-bit
-- integers and their decimal text. Uuid is the textual form of identifiers, a parameter; Redis is the
-- interface of the store, and Redis/Memory a store in memory that meets it.
--
-- RateLimit is internal/platform/ratelimit: `leaky_bucket_script` is the script of leakybucket.go,
-- `allow`
-- is LeakyBucket.Allow and `middleware` is Middleware. RateLimit/Levels has
-- the level after a request, and RateLimit/Conformance what a bucket that may expire lets through.
--
-- Like/Service is internal/like/service.go (`like_script`, `apply`, `is_liked_by`, `count`),
-- Like/Repository internal/like/repository.go (one function for each statement), Like/Worker
-- internal/like/worker.go (`parse_event`, `process`, `run`) and Like/Reconciler
-- internal/like/reconciler.go (`once`). Like/Pipeline puts them together: a state of Redis, Postgres
-- and the
-- position of the consumer group, changed by requests, deliveries and reconciliations in any order.
--
-- View/Policy, View/Filters and View/Service are internal/view's policy.go, filter.go, filters.go,
-- duration.go,
-- unique.go and service.go (`required_watch_ms`, `rate_policy`, `apply`, `track`), View/Hash its
-- hash.go,
-- View/Worker and View/Sink its worker.go (`parse_event`, `flush`, `run`, `insert`).
--
-- Auth/Refresh is internal/auth/refresh.go (`issue`, `validate`, `revoke`), Auth/Email the normalizing
-- of
-- internal/auth/domain.go, and Auth/Service the package's service.go and repository.go (`register`,
-- `login`,
-- `refresh`, `logout`); Auth/Signup adds the filter of emails to `register` (`sign_up`) and has
-- FindByID.
--
-- Feed is internal/feed's domain.go and pull.go with FeedPage of internal/video/repository.go;
-- Feed/Push
-- is push.go (`publish`, `warmup`, `push_fetch`, `sort_by_order`) over the sorted sets of
-- Redis/Sorted. Video is
-- internal/video's domain.go, Video/Repository its repository.go and Video/Service its service.go
-- (`create_video`, `get_video`, `exists`, `assert_owner`); the hook of a new video is where the feed's
-- `publish` is
-- plugged in. Cache is internal/platform/cache/jsoncache.go with the read path that videos and
-- products
-- share, Bloom is internal/platform/bloom (`init`, `may_contain`, `add_batch`, `warmup`), and Product,
-- Product/Repository
-- and Product/Service are internal/product (`create_product`, `get_by_id`, `get_by_video_id`). Stats
-- is
-- internal/stats/service.go (`get_stats`); the request of the process that it joins is an argument.
--
-- Jwt is internal/platform/jwt (`issue_access`, `parse`, `require_auth`, `optional_auth`). Http is the
-- envelope of
-- internal/platform/httpx/response.go, Http/Products internal/product/handler.go with the route of
-- internal/platform/app
-- that puts it behind `require_auth`, Http/Views internal/view/handler.go with its route behind
-- `optional_auth`, and Http/Feeds internal/feed/handler.go.
--
-- Examples runs the theorems on small inputs.
--
-- Whether a call of Redis, Postgres or ClickHouse gets through is an argument of each operation; one
-- that fails changes nothing, except the insert of views, which may have written some of its rows.
-- Clocks and random values are arguments. A stream holds all entries
-- while it is below its cap, which is a hypothesis where it matters. Loops over what is read are
-- recursion on the list of reads; the client of the feed is bounded by a number of pages, and as many
-- as there are videos are enough. Text is bytes, and its trimming and lowering is that of ASCII.
-- Scores of the feed are microseconds since 1970, which a double holds exactly. Levels of a bucket
-- are exact numbers of 60000ths of a unit. The doubles of the script are not modelled: by their
-- rounding a request that fills the bucket exactly may be refused, and the reported wait may be a
-- millisecond too long.
--
-- Not modelled: the other HTTP handlers, configuration, metrics, start-up and clients (I/O);
-- bcrypt, golang-jwt, SHA-256, JSON, base64 and net/url, which are libraries.
pub mod Prelude
pub mod Uuid
pub mod Redis
pub mod Cache
pub mod RateLimit
pub mod Like
pub mod View
pub mod Auth
pub mod Feed
pub mod Stats
pub mod Video
pub mod Http
pub mod Jwt
pub mod Bloom
pub mod Product
pub mod Examples
