-- ===== src/Lib.antt =====
-- mint-sniper arms on a target, signs one mint transaction for each of its wallets ahead of time,
-- and on a trigger broadcasts them to the sequencer and to every backup RPC, waits for their
-- receipts and reports one result a wallet. This library models the start, the control loop, the
-- executor, the inclusion detection and the reads that they make, copymint and the delegated runs,
-- and the HTTP API with its sign-in, its sessions and its audit log.
--
-- How the parts interact: one task, the control loop, owns the arm session, the wallets' nonces and
-- the cached signed batch, and handles one ControlMsg at a time; watchers, timers and the HTTP API
-- only send it messages. It calls the executor to warm connections, to sign and to fire. Every part
-- reports on the event bus.
--
-- Common holds the shared names: lists, tests, words and signed integers over the native numbers,
-- and the result type with its do blocks. Failure, Url, Bus, Config, Wallet and Effect are the data
-- of mint-sniper/src (config.rs, bus.rs, state.rs, wallet.rs). Net is the outside world as a step
-- finds it: one function for each answer of an RPC node, the clock, the signer, the random sampler
-- or another crate. Inclusion is mint-sniper/src/inclusion.rs (establish_block_ticker,
-- wait_for_receipt). Seadrop is mint-sniper/src/seadrop.rs (fetch_public_drop, encode_mint_public).
-- Copymint is mint-sniper/src/copymint.rs: the candidate, the manual fire, Watch the decoding and
-- the filters, Loop run_copymint_watcher, Eligibility the report. Audit is mint-sniper/src/audit.rs
-- and Api the routes of mint-sniper/src/api.rs: Orders those that change what the bot does,
-- Delegation the delegated ones, Google the sign-in and the logout, Signin the codes and the
-- passkeys, Router the routes as one function, Stream the event stream; a request is one step, but
-- that SetTarget may see an older configuration. Config.Validate is Config::validate, Startup is
-- main and load_wallets (mint-sniper/src/main.rs, wallet.rs), Opening the choice of its mint,
-- Health rank_by_latency with the rounds of the polling loops (Polls) and Calendar parse_http_date
-- and days_from_civil, all of mint-sniper/src/main.rs. Target is mint-sniper/src/target.rs and
-- goplus.rs: resolve, resolve_address and the binary search for a contract's first block. Opensea
-- is mint-sniper/src/opensea.rs: parse_input, resolve_slug and search_collections. Identity is
-- mint-sniper/src/identity (Session and Users: session.rs, Totp: totp.rs, Credentials and Webauthn
-- and Origin: webauthn.rs, Oidc: oidc.rs, Keys: crypto.rs and the token file of auth.rs) and the
-- guards of mint-sniper/src/auth.rs and mint-sniper/src/api.rs (Guard); a table is the list of its
-- rows, and any query may fail. Delegated is mint-sniper/src/delegated: the serial firing, Run the
-- derivation, the preflight and run_delegated_mint. Watchers is mint-sniper/src/watcher.rs.
-- Executor is mint-sniper/src/executor.rs: Fees the fee arithmetic, Warm the warm-up, Prepare
-- prepare_fire, Fire the sends of one wallet, Report its result and fire_prepared. Control is
-- control_loop of mint-sniper/src/main.rs: State its variables, Arm, Ready, Fire and Step its
-- handlers. Examples applies the theorems in a small concrete world.
--
-- A handler returns the new state and the list of its effects: events, messages, tasks spawned or
-- aborted, and broadcasts. A panic of the control loop is none; one that starts in a read or in the
-- sampling of a range travels as the failure word_panic or range_panic, and unless_panic ends with
-- it what would handle the failure. Machine integers are native numbers with their wrap or
-- saturation written out; an f64 is its IEEE bit pattern and products of floats are parameters. A
-- receipt wait is a list of query answers that ends at the timeout, and loops are structural
-- recursion; only the binary search of Target recurses on fuel, the latest block's number, which
-- its range never exceeds. The wallets' tasks of a fire run concurrently in the code; as they share
-- nothing, their effects stand in the order of the batch.
--
-- Not modelled: the CORS layer and the static files, which are those of tower_http; the reading of
-- the configuration's file; sockets, TLS, timers and task scheduling; ABI coding, signing and
-- hashing (parameters of Net); the database engine, the web UI and the deployment scripts.
pub mod Common
pub mod Failure
pub mod Url
pub mod Bus
pub mod Config
pub mod Wallet
pub mod Inclusion
pub mod Opensea
pub mod Net
pub mod Seadrop
pub mod Effect
pub mod Executor
pub mod Copymint
pub mod Target
pub mod Api
pub mod Identity
pub mod Delegated
pub mod Watchers
pub mod Health
pub mod Calendar
pub mod Control
pub mod Audit
pub mod Startup
pub mod Examples
