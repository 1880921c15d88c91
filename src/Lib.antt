-- ===== src/Lib.antt =====
-- Verification of the core of the HSM secrets operator: an operator for Kubernetes that keeps
-- secrets on several hardware security modules (HSMs), each served by an agent, and replicates
-- them between the devices.
--
-- The parts and how they interact. A client sends a request to the proxy (internal/api), which
-- keeps one gRPC client for each device, calls all devices, and makes one answer of theirs. The
-- mirror (internal/mirror) sweeps over the devices: it takes an inventory of the secrets, plans
-- which device is to be written from which, and carries the plans out. Both ask the resolver
-- (internal/reconcile) which copy wins where devices disagree, and both read the labels of a
-- secret's metadata, whose format and checksum are those of internal/hsm. An agent takes its name
-- from internal/agent and the PIN of its device from the PIN provider of internal/hsm. It serves
-- the PKCS#11 client of internal/hsm, which keeps the keys of a secret as data objects of a token,
-- over gRPC, behind an interceptor of internal/security that validates paths; the callers get
-- their gRPC clients from a pool with one connection for each endpoint.
--
-- Files.
--   Common/*            tests on numbers and strings, integers, lists, permutations, Go maps as
--                       association lists, sort.Strings, and calls that change the world (State)
--   Golib               the functions of Go's library that the program calls, as a parameter
--   Reconcile           internal/reconcile/resolve.go: Resolve and its helpers, name by name;
--                       Reconcile/Votes, Newest, Lowest, Verdict and Order hold the proofs
--   Hsm                 internal/hsm/client.go: SecretData, SecretMetadata, label readers, Config,
--                       CalculateChecksum; Hsm/Checksum holds its proofs
--   Hsm/Mock            internal/hsm/mock_client.go: MockClient, a method as a function from the
--                       state to a result and the next state; Hsm/Mock/Laws holds its proofs
--   Hsm/Oids            internal/hsm/oids.go: data types, their object identifiers, InferDataType
--   Hsm/Calls           methods that may fail and change the world, for do blocks
--   Hsm/Token           the calls of github.com/miekg/pkcs11 as a record, and what is relied on of a
--                       token that works (Serves)
--   Hsm/Session         internal/hsm/pkcs11_cgo.go: opening and closing sessions, token information;
--                       Hsm/Session/Objects finds, creates and deletes data objects;
--                       Hsm/Session/Laws holds the proofs
--   Hsm/Hardware        internal/hsm/pkcs11_client.go: PKCS11Client, method by method, and WithRetry;
--                       its proofs: Labels (prefixes and suffixes), Written (the objects of a
--                       secret), Laws (the methods on a working token), Store, Refine (against the
--                       in-memory client), Retry and Presence (lost tokens)
--   Hsm/Pin             internal/hsm/pin_provider.go: GetPIN and its cache; Hsm/Pin/Laws holds its
--                       proofs
--   Agent/Naming        internal/agent/naming.go: AgentInstanceName; Agent/Naming/Laws holds its
--                       proofs
--   Agent/Rpc           the interface Client of internal/hsm/client.go, the codes of errors, and the
--                       generated stub of HSMAgent as a parameter
--   Agent/Server        internal/agent/grpc_server.go: the handlers and the probes; Agent/Server/Laws
--                       holds the proofs
--   Agent/Client        internal/agent/grpc_client.go; Agent/Client/Laws states what a transport that
--                       delivers is (Delivers) and holds the proofs
--   Agent/Pool          internal/agent/connection_pool.go; Agent/Pool/Laws and Reach hold the invariant
--                       and the sequences of critical sections, and Ends what GetClient returns
--   Security/Validation internal/security/validation.go; Security/Validation/Laws holds the proofs
--   Security/Auth       internal/security/api_auth.go: AuthMiddleware, GenerateToken and
--                       HandleTokenGeneration; Security/Auth/Laws, Exempt (the middleware)
--                       and Issue (the tokens) hold the proofs
--   Mirror              internal/mirror/manager.go: its types and the interface of the agents
--   Mirror/Inventory    buildSecretInventory and calculateChecksum
--   Mirror/Plan         createMirrorPlans, createMirrorPlanForSecret, removeDuplicates and
--                       removeDevice; Mirror/Plan/* holds the proofs
--   Mirror/Execute      executeMirrorPlan(s), WriteSecret, writeMetadataOnly and
--                       readSecretWithMetadata; Mirror/Execute/Device states what is relied on of
--                       the devices, and Mirror/Execute/* holds the proofs
--   Mirror/Sweep        discovery with retries, MirrorAllSecrets and WaitForAgentsReady
--   Api                 internal/api/proxy_client.go: the results, the responses and the interface
--                       of the clients
--   Api/Answers         the helpers that read metadata and pick an answer, nextVersion
--   Api/Cache           getAllAvailableGRPCClients, Close, CleanupDisconnectedClients
--   Api/Devices         the calls on all devices
--   Api/Handlers        the handlers of the requests
--   Examples/*          concrete instances, at which each result is applied
--
-- Conventions. Strings and byte slices are lists of bytes. Go maps are association lists, ranged
-- over in the order of the list, which is arbitrary. A pointer or a map that may be nil is an
-- Option. Versions and timestamps are integers; the one addition to a version wraps as int64 does
-- (increment). Code that calls devices runs in State: it takes the world and returns it changed.
-- Devices, clients, agents and Go's library are parameters, with the laws that a result relies on
-- as hypotheses (Faithful of the mirror, Stored of the proxy, Serves of a token, Delivers of a gRPC
-- transport). Faithful asks of a write only that it leaves alone other devices and, on its device,
-- the paths of which neither begins with the other, since the PKCS#11 client finds the objects of a
-- secret by the bare prefix of their labels; Examples/Fleet gives an instance over the in-memory
-- client. Goroutines that call one device each are a sequence of steps in any order.
--
-- Bounds. Loops are structural recursion over what they range over. The exchange sort of
-- CalculateChecksum runs one round for each key but the last, as the code does. The retries of
-- the discovery run on the number of attempts, and WaitForAgentsReady on the number of ticks
-- before its timeout. WithRetry runs on the attempts that are left, and GetClient on its three
-- attempts. Counters of 64 bits and the reference count of 32 bits wrap around. A search at a token
-- returns at most a hundred objects, and the results on it say so where they need fewer.
--
-- Not modelled: logging (but for the cut of a checksum in a log line, which panics on nil data),
-- mutexes (the invariant of the pool is over its critical sections in any order, every other method
-- is one step), the texts of errors, the HTTP server, listeners and TLS, the loops of the Kubernetes
-- controllers and the manifests that they write, device discovery, certificates, the kubectl plugin
-- and generated code: they are calls of Kubernetes, of the network and of the operating system, with
-- little logic of their own.
pub mod Common
pub mod Golib
pub mod Hsm
pub mod Reconcile
pub mod Mirror
pub mod Agent
pub mod Security
pub mod Api
pub mod Examples
