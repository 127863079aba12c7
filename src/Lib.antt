-- ===== src/Lib.antt =====
-- A verification library of ws-gateway, a WebSocket gateway in Go: clients keep links to a gateway
-- node, whose handlers forward their messages to business backends and push backend messages down.
--
-- The parts and their files:
--   Common       numbers, lists, keys, Go maps, the map of ekit's syncx and fmt.Sprintf's formats
--   Errors       errors as the sentinel errors they wrap
--   Message      the messages, and the collaborators of the handlers: codec, encryptor, cache, backend
--   Handler      internal/linkevent/handler.go: what happens to a frontend's message, from its format
--                and the idempotency cache to the backend and the acknowledgement, and to a push of a
--                backend (OnFrontendSendMessage, OnBackendPushMessage, OnDisconnect)
--   PushRetry    pkg/pushretry/manager.go: the timers that send a push again until it is acknowledged;
--                PushRetry.Races has a Stop during a push
--   Coordinator  internal/linkevent/coordinator.go: batches of requests to a backend
--   Limiter      internal/limiter/connection_limiter.go: the tokens of connections and their ramp-up
--   Links        internal/link/link.go, its two goroutines in Links.Loops; Links.Manager is
--                internal/link/manager.go
--   Balancer     pkg/grpc/balancer/capacity/v2/picker.go and picker_builder.go; Balancer.Conns is
--                balancer.go of the same folder
--   Registry     internal/registry/registry.go: a node in etcd and the renewal of its lease
--   Wrapper      types.go: LinkEventHandlerWrapper, which calls several link event handlers in order
--   LinkHandlers internal/linkevent/limit_handler.go, online_user_handler.go, user_action_handler.go
--   BatchHandler, BatchProcessor
--                internal/linkevent/batch_handler.go, which gives messages to a coordinator, and
--                batch_processor.go, which answers the coordinator's batches
--   Server       internal/websocket_server.go: the goroutines that accept and handle connections, over
--                Limiter and Links.Manager; Server.Pushing its consumer of push messages
--   Rebalance    consumeScaleUpEvent of the same file, RedirectLinks of internal/link/manager.go and
--                internal/link/random_selector.go
--   Scaler       pkg/scaler/docker.go: new nodes as containers
--   Webhook      internal/webhook/service.go and handler.go, over Scaler and Rebalance
--   Generator    pkg/generator/etcd.go: node ids and ports from etcd
--   Session      pkg/session/session.go: the sessions of users in Redis
--   Tokens       pkg/jwt/jwt.go and user_jwt.go: the tokens of users
--   Upgrader     internal/upgrader/upgrader.go: the handshake, over Tokens and Session
--   BatchProducer
--                internal/event/batch_send_to_backend.go: messages gathered for the queue
-- Handler uses PushRetry through the interface LinkApi, which it fills with its own push; both keep
-- their maps behind the interface SyncMap, of which association lists are an instance. The children
-- of a module hold its lemmas by subject, and its Tests run it on concrete data.
--
-- How the code is read. A method takes the state of its receiver and returns the new one with its
-- results; an error is a value. Names are those of the source in snake case. A pointer that is shared
-- (a retransmission's task, a link, a balancer's connection) is a reference into a heap. Goroutines
-- and timers are events: a step of the code between two uses of a lock or a channel is one function,
-- and a run is a list of events in any order. An int64 that may overflow wraps (add64, sub64); the
-- counters of tasks and of links do not. What is not in the repository (etcd, the cache, gRPC, the
-- connections, the codec, encryption, float64) is a parameter, with the laws that a theorem needs as
-- named hypotheses.
--
-- Fuel: forward_loop, call_batch_service_with_retry, register_loop and send_with_retry count the
-- rounds that are left, and start with one more than the retries that the strategy grants, which is
-- where they end.
--
-- Not modelled: logging, metrics and clocks; GetStats of the coordinator; the variants
-- link_v2.go to link_v4.go of a link; GracefulCloseV2; what may come
-- between the calls of one method where its file says that it is one step; the order of the calls in
-- the server's Start and at the end of its GracefulStop; what is the same for every container;
-- consumers and producers of the queue but the batched one; encryption and codecs; generated code,
-- mocks, demonstrations and wiring.
pub mod Common
pub mod PushRetry
pub mod Limiter
pub mod Errors
pub mod Message
pub mod Handler
pub mod Coordinator
pub mod Links
pub mod BatchHandler
pub mod BatchProcessor
pub mod BatchProducer
pub mod Session
pub mod Balancer
pub mod Registry
pub mod Rebalance
pub mod Scaler
pub mod Server
pub mod LinkHandlers
pub mod Webhook
pub mod Wrapper
pub mod Generator
pub mod Tokens
pub mod Upgrader
