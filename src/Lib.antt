-- ===== src/Lib.antt =====
-- A model of the local agent network of un-bien, the part of the extension through which the agent
-- sessions of one machine find each other and exchange messages, and of the transcripts and prompts
-- that its clients show.
--
-- One session of a machine leads and hosts the broker; each session connects to it over a local
-- socket, registers a folder and a name, and gets an address, `<folder>@<name>`, by which the broker
-- routes envelopes. Other machines' envelopes come in through the relay and go out through a router
-- that is attached to the broker. A session keeps the messages that it was delivered in an inbox.
--
-- - Json: JSON values as the code sees them after `JSON.parse`. The texts of lines are not modelled: a
--   line is the value that is parsed from it, or nothing.
-- - Envelope: extension/src/session/envelope.ts, `parse`, `serialize`, `isUuid` and the body of a
--   transport error. `uuidv7` draws on the clock and on random bytes, so the ids that it returns are a
--   field of the broker's state.
-- - Address: `sanitizeSegment` and `migrateAgentName` of extension/src/session/local_config.ts, the
--   limits of peer_limits.ts, and `composeAddress`, `sanitizeMeshName` and the tests on paths of
--   broker.ts. Texts are lists of UTF-16 code units.
-- - Broker: the class of extension/src/session/broker.ts. State has the fields and the writes, Naming
--   `_identityForRegister`, Registry the registration, renaming and closing of connections, Routing
--   `_handleLine`, `_route` and what they call, Inject `injectFromRemote`. A connection is a number in
--   a store that the registry shares, since the code's map and callbacks share the object. What a
--   socket is given is kept in order. Steps is the relation of all that happens to a broker.
-- - Remote: the class of extension/src/session/broker_remote.ts, by which the brokers of several machines
--   exchange envelopes, over the frames of extension/src/transport/pi_forward_client.ts. Prefix has the
--   addresses, Topology `buildRoutingState`, Roster the bodies that routers send each other, State the
--   fields and `_sendControlEnvelope`, Cache the rosters of other machines, Lifecycle activation and the
--   end, Retopology `setTopology`, Outbound `tryRouteOutbound`, Incoming `handleIncoming`, Errors what it
--   does with the relay's errors. The broker that the object holds is a field of its state.
--   `canonicalizeEd25519PublicKey` is a parameter, a function that may throw, which Mesh fills. What the
--   client is given to send is kept in order, if the relay is up; a timer is a step.
-- - Mesh: the keys and labels by which machines know each other. Keys has the reading of Ed25519 keys and
--   Aliases `allocateRoutingAliases` of extension/src/mesh/encoding.ts, Snapshot `buildTopologySnapshot` of
--   siblings.ts, whose topologies Remote is given. Base64 and UTF-8 are the platform's: parameters, with
--   what is relied on of them in Canonical and Inputs. The search for a prefix has as many rounds as
--   there are prefixes of a key, from 8 characters on, as the code's.
-- - Rpc: how the entries of a session's transcript reach a client in pages. Fitting has
--   `fitEntryForTransport` and Pages `pageEntries` of extension/src/session/rpc_inbound.ts, with
--   `getEntries` of rpc_handlers.ts and the walk of unbien-cli/src/client.ts. The length of
--   `JSON.stringify` is a parameter; what a request brings is a function of its cursor. The walk's fuel
--   is its `maxPages`.
-- - Sessions: unbien-cli/src/session-select.ts, by which the client finds the session that its flags
--   name. What its n-th re-gather brings, or that it throws, is a function of n; the fuel is the code's
--   SESSION_WAIT_RETRIES.
-- - Inbox: the class of extension/src/session/mesh_inbox.ts. A promise is a number, and the list
--   `settled` says what each was resolved with.
-- - Election: `joinOrLead` of extension/src/session/leader_election.ts, by which the sessions of a
--   machine find their leader. What the system and the probes of the socket file answer is a list of
--   rounds, one for each turn of the loop; a list that is too short is a result of its own.
-- - Mirror: unbien-durable/src/mirror.ts, the view of a durable transcript that an app pages through.
-- - Transcript: unbien-cli/src/reduce.ts, which folds the stream of a session, or its stored history,
--   into the rows of a transcript. A tool card is held by its place among the rows.
-- - Ask: unbien-cli/src/ask.ts, what a notice does to the open prompts, and the responses to a prompt.
--
-- Loops are recursions on the list that they walk. The search for a free name runs over the suffixes
-- 2 to 999, as the code's does, so its 998 rounds are the code's own bound; decimal digits are made
-- with one unit of fuel more than the number, which is more than it has digits. Times and counters
-- are natural numbers of no bound. The election's loop is a recursion on its rounds.
--
-- Not modelled: the chunks of a socket's data before they are lines, the observer `onRouted`, the time
-- in an audit line, the server's own closing, the storage of the configuration, and all of the program
-- that is not named above. For the broker, the router to other machines is a parameter: a function that
-- claims an envelope or not, and the lists of remote peers; Remote says what it is. Whether a socket's
-- write throws is up to the environment, a flag of the connection that a step may change.
pub mod Prelude
pub mod Json
pub mod Envelope
pub mod Address
pub mod Broker
pub mod Ask
pub mod Election
pub mod Inbox
pub mod Mesh
pub mod Mirror
pub mod Remote
pub mod Rpc
pub mod Sessions
pub mod Transcript
pub mod Tests
