-- ===== src/Lib.antt =====
-- The agents_protocol package (src/agents_protocol): a broker that passes messages between agents, with
-- a store, a registry, access control, extensions, fault tolerance and a cluster of brokers.
--
-- The parts and the files that model them, each with its operations under the source's names:
-- - Protocol: protocol.py, the message record, `create_reply` and the validator of the correlation id.
-- - Broker, Inbox, Objects: `MessageBroker` of messaging.py. `Broker.World` is its state with the message
--   objects on a heap, since the broker, the store and the inboxes share them and a write to a status is
--   seen by all. An awaited method is a function of the world that returns, raises, or waits for room in a
--   full inbox (`Outcome`). `Broker.Sending` is `send` with the whole of `_do_send`, `Broker.Delivery`
--   is `_deliver_locally`, the copies and `_broadcast`, `Broker.Requests` is `request`, `set_response`
--   and `replay_message`. `Broker.Steps.IsStable` is the interface of the relations that every part of
--   a send keeps, which `Broker.Keeping` takes to the whole of `_do_send`.
-- - Router: `MessageRouter` and `RouterRegistry` of messaging.py.
-- - Persistence: `InMemoryMessageStore` of persistence.py.
-- - Registry: `AgentRegistry` of agents.py.
-- - Security: `SecurityManager` of security.py, and `Security.Tls` its `TLSHelper`.
-- - Extensions: extensions.py, hooks, validation rules and middleware.
-- - Resilience: resilience.py, circuit breaker, retries, timeouts.
-- - Cluster: cluster.py, peers and their manager, the HTTP clients as numbers that are made
--   and closed, and the manager as the broker's `ClusterLink`.
-- - Adapter: `JSONRPCAdapter` of adapters.py. Bridge: bridge.py, `BridgeAgent`, and `Bridge.Stream` the
--   lines of `StreamBridgeAgent`.
-- - Agent: the `Agent` base class of agents.py, its handlers, hooks, loop and connection.
-- - Channel: channels.py. `Channel` is `LocalChannel` and `ChannelRegistry`, `Channel.Tcp` the sending side
--   of `TCPSocketChannel` and `Channel.Stream` its framing, `Channel.WebSocket` the connections of
--   `WebSocketChannel`, `Channel.Http` how `HTTPChannel` reads a request, and `Channel.Serving` what it
--   answers and how it sends. `Channel.Inbound` is what TCP and WebSocket give to their broker.
-- - Examples: programs of examples/ that use the package. `Examples.Secure` is the agents and the access
--   control of secure_communication.py, `Examples.Service` the external service of client_b_bridge.py, and
--   `Examples.Echo` the agents of basic_usage.py.
-- - Prelude, Dict, Json, Sorting: shared lemmas, Python's dict, JSON values and sorting.
-- - Tests: the theorems at concrete inputs.
--
-- How the parts interact: `send` runs the middleware of Extensions around `_do_send`, which asks the
-- validation rules and Security, saves in Persistence, asks Router for recipients, and puts into
-- inboxes or hands over to the cluster, which the broker sees through the interface `ClusterLink`. A
-- peer of Cluster forwards through the breaker and the retries of Resilience. An agent acts on the
-- broker it is connected to, takes from its inbox there, and sends its answers through it; the
-- handlers of the channels send what they read through it.
--
-- Parameters: the readings of the clock, the uuids, the random draws of the jitter (in thousandths),
-- the HTTP clients (`Network`, `Session`), the sockets (`Sockets`), `json.dumps` and `json.loads`,
-- which files TLS can load, the parsing of a body as a message, the program's handlers, rules,
-- middlewares, filters and callbacks, and which puts into an inbox raise. Times are milliseconds or
-- the ticks of the clock.
--
-- Bounds and fuel: the chain of middlewares runs on its length as fuel, which is the number of
-- indices; the retry loop runs on its number of rounds, `max_retries + 1`; the loop over a stream
-- runs on the stream's length, as each round takes four bytes or more. The loop of an agent, which
-- ends only when the agent is stopped, runs for a given number of rounds. No other loop needs fuel.
--
-- Interleaving: other tasks run where the code awaits. For the breaker and the broker this is a
-- relation of steps (`Breaker.Invariant.Step`, `Broker.Registration.Step`), for what a broker hands
-- out over a whole run `Broker.Handouts.Run`, for the brokers and agents around a request
-- `Agent.Requests.Work`, and for the handlers of WebSocket connections a list of events
-- (`Channel.Reconnects.Event`), and `request` and `call` are split at their await. Within one gather
-- each delivery, and each callback of a hook, runs until it ends or waits, in order. A put that waits on
-- a full inbox ends the call that made it in `blocked`: no later step of these relations completes it,
-- as asyncio does once a message was taken out of that inbox.
--
-- Not modelled: the server objects, addresses and closing handshakes of channels.py; serialization by
-- pydantic and json; the `main` functions of the examples, which set up the parts, print and sleep,
-- and client_a_bridge.py; logging; a fractional exponential base of the retries; the cancellation of
-- tasks, but for the client that a stop closes; WebSocket identifications whose agent id is neither a
-- text nor missing; header bytes beyond ASCII in the reading of numbers and blanks, and the limit of
-- `int` on the number of digits.
pub mod Prelude
pub mod Dict
pub mod Json
pub mod Protocol
pub mod Resilience
pub mod Security
pub mod Registry
pub mod Extensions
pub mod Router
pub mod Sorting
pub mod Objects
pub mod Persistence
pub mod Inbox
pub mod Broker
pub mod Cluster
pub mod Examples
pub mod Agent
pub mod Adapter
pub mod Bridge
pub mod Channel
mod Tests
