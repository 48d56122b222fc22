-- ===== src/Lib.antt =====
-- Verification of pinGo, a library of the parts of an HTTP proxy.
--
-- The packages under pkg/ stand side by side. Every one returns the error values of pkg/errors. A
-- proxy (pkg/proxy) asks a balancer (pkg/loadbalancing) for a backend and is run by a server
-- (pkg/core). Limiters (pkg/limits), caches (pkg/cache), circuit breakers and timers (pkg/timeout)
-- stand beside it.
--
-- Files and what they model:
-- - Errors: pkg/errors/errors.go. `Error`, `HTTPStatusCode`, `OrErr` and `Result`.
-- - Limits: pkg/limits/limiter.go. Limits/TokenBucket is `TokenBucket`, Limits/SlidingWindow is
--   `SlidingWindowLimiter`, Limits/FixedWindow is `FixedWindowLimiter`, Limits/Concurrency is
--   `ConcurrencyLimiter` and Limits/Multi is the interface `RateLimiter` with `MultiLimiter`.
-- - Timeout: pkg/timeout/timeout.go. Timeout/Circuit is `Circuit`, Timeout/Timer is `Timer` with the
--   alarms of time.AfterFunc, Timeout/Group is `TimeoutGroup`, Timeout/Deadline `WithTimeout` and
--   `WithDeadline`, and Timeout/Retry `WithRetry`.
-- - Http: pkg/http/headers.go. Http/Headers is the http.Header of requests and responses, Http/Request
--   is `RequestHeader`, Http/Response `ResponseHeader`, Http/Version `HTTPVersion` and
--   Http/CacheControl `CacheControl`.
-- - LoadBalancing: pkg/loadbalancing/balancer.go. LoadBalancing/Backends is `Backend` and the loops
--   over backends, LoadBalancing/Contract the interface `LoadBalancer`, and RoundRobin, Random and
--   LeastConnection are the three balancers.
-- - Cache: pkg/cache/cache.go. Cache/Memory is `MemoryCache`, with the
--   interleavings of its methods in Cache/Memory/Threads, Cache/Contract is the interface `Cache`
--   with its laws, Cache/Tiered is `TieredCache`, Cache/NoOp is `NoOpCache` and Cache/Keys is
--   `CacheKey`.
-- - Pool: pkg/pool/pool.go. Pool/Tcp is `TCPConnectionPool` with its `hostPool`,
--   Pool/Tcp/Dialing the client of its `GetClient`, and Pool/Http is `HTTPConnectionPool`.
-- - Proxy: pkg/proxy/proxy.go. Proxy/Forwarding is `proxyRequest` with `copyHeaders`, `getClientIP`
--   and `getScheme`, Proxy/Service is `ProxyService` with `handleRequest`, Proxy/Simple
--   `SimpleProxyService` and Proxy/Filters `ProxyHTTP`.
-- - Tls: pkg/tls/tls.go. Tls/Settings is `TLSSettings` with `BuildTLSConfig`, Tls/Client
--   `NewTLSClient` and Tls/Certificates `CertificateManager`.
-- - Core: pkg/core/server.go. Core/Server is `Server` and `httpService`, Core/Peer the records of
--   sockets and peers.
-- - Cmd: cmd/pingora/main.go. `main`, `runProxy`, `runServer`, `runClient` and the texts of the
--   handlers.
-- - Examples: internal/examples/examples.go and cmd/examples/main.go. Examples/Echo is `EchoService`,
--   and Examples the three programs, which run it and the proxy in a server.
-- - Programs: what Cmd and Examples share, the end of a program and the loops of the echo handlers.
-- - Base: numbers, lists, times, dictionaries and texts that the components share.
-- - Ketama: pkg/ketama/ketama.go. Ketama/Sorting is what the code uses of the package sort,
--   Ketama/Ring is `Ring`, Ketama/Several its methods for several nodes, Ketama/Balancer is
--   `KetamaBalancer` and Ketama/Weighted `WeightedKetamaBalancer`.
-- A function of the source has its name in small letters, so `AllowN` is `allow_n`; the file of a
-- type holds its definitions, and the files below it the theorems and the tests.
--
-- How the code is read:
-- - A method takes the state and returns the new one beside its result. Its mutex makes it one
--   step; where a method gives its mutex up, its file says how the steps are cut. The random
--   balancer holds only the lock for readers when it draws, and its calls are taken one at a time.
-- - An int, an int64 and a Duration are integers, and each operation on them wraps at 64 bits by
--   `int64`. The difference of two times saturates as time.Sub does. A time is a number of
--   nanoseconds, and the reading of a clock is an argument.
-- - A nil error is `none`. A panic is a value of the result: that of WriteHeader on a status it cannot
--   write, of a nil map, and of a slice that the runtime cannot allocate, which a parameter tells.
-- - The source of random numbers and the order of a `range` over a map are parameters, with what
--   the code relies on as laws.
-- - A loop that waits takes the list of its rounds. The eviction loop runs on fuel: one round for
--   each entry of the cache and one for the last test, since each round takes an entry off.
--   The loop of GetNodes has a round for each key of the ring: after those it has visited every node.
--
-- Not modelled: what the clients and servers of net/http do, the digests of crypto/md5 and `HashKey`
-- (pkg/ketama), which nothing calls; the methods of TLSListener, each a call of the inner listener;
-- the texts that the programs print of themselves; the interfaces of pkg/core without an
-- implementation.
pub mod Base
pub mod Errors
pub mod Examples
pub mod Limits
pub mod Timeout
pub mod Cache
pub mod LoadBalancing
pub mod Pool
pub mod Programs
pub mod Ketama
pub mod Http
pub mod Proxy
pub mod Tls
pub mod Core
pub mod Cmd
