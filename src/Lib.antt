-- ===== src/Lib.antt =====
-- Zallet, a Zcash wallet server: the parts of it that decide something, with what makes them correct.
--
-- The program is a full-node wallet behind a JSON-RPC interface. A method parses its parameters (amounts,
-- policies, operation identifiers), builds a payment request, has a proposal for it computed, checks the
-- proposal against the caller's privacy policy and leaves the sending to an asynchronous operation, which
-- other methods ask for by its identifier. In front of the methods the server checks the password of a request
-- and maps the versions of JSON-RPC. The key store has the seeds, encrypted, and the identities that decrypt
-- them, which it caches between unlock and lock. Beside the interface, a sync task follows the chain: it finds
-- the block where the wallet's history leaves the best chain, rewinds to it and connects the blocks from there,
-- and another recovers the history below, in batches.
--
-- The files, with the code each is about:
--   Rpc/Error             zallet/src/components/json_rpc/server/error.rs: LegacyCode and error objects
--   Privacy               json_rpc/payments.rs: PrivacyPolicy; Lattice, Names: its laws
--   Privacy/Proposal      json_rpc/payments.rs: enforce_privacy_policy, required_privacy_policy, StepPoolExt;
--                         Leaks: what a step reveals; Enforce: what enforcement allows
--   Payments              json_rpc/payments.rs: build_request, parse_memo; Request: which requests come out
--   Amount                json_rpc/utils.rs: parse_fixed_point; Digits, Literals, Scale, Exact: its parts on
--                         decimal literals; Decimal: its results
--   Amount/Values         json_rpc/utils.rs: zatoshis_from_value, zec_str
--   AsyncOp               json_rpc/asyncop.rs: OperationState, AsyncOperation, OperationStatus; Task: the task
--                         that `AsyncOperation::new` spawns, as a step relation; Status: what holds along it
--   AsyncOp/Registry      json_rpc/methods.rs (start_async), methods/get_operation.rs and
--                         methods/list_operation_ids.rs
--   Sync/Locator          sync/locator.rs, and BlockLocator of zallet/src/components/chain.rs
--   Sync/Rewind           sync.rs: rewind_step, step_back_to_best_chain, locate_fork_point
--   Sync/Steady           sync.rs: steady_state_iteration and its helpers
--   Sync/Boundary         zallet-core/src/components/sync/steps.rs: clamp_to_boundary, scan_blocks;
--                         Heights: which heights are scanned
--   Sync/Scanning         sync/steps.rs: scan_blocks; Sample: data for the tests
--   Sending               json_rpc/methods/z_send_many.rs: the limit on Orchard actions; Recipients: the checks
--                         of the payments; Limits: what the limit refuses
--   Sync/Initialize       sync.rs: initialize; sync/steps.rs: update_subtree_roots; Settled,
--                         Rounds, Runs: its rounds, and how it ends
--   Sync/Requests         sync.rs: data_requests without a spend index; Addresses: the service of an address
--   Sync/History          sync.rs: recover_history, a round at a time; Tiles: its batches; Batches: what a
--                         round scans
--   Keystore              components/keystore.rs: the cache of identities; Step: unlock, lock and the relock
--                         task as steps; Deadline: how unlock ends; Relock: when it is locked again;
--                         Stale: how long it is not; Race: what an aborted task does
--   Keystore/Store        components/keystore.rs: the tables; Sapling: the Sapling keys; Calls: sequences of
--                         calls; Rows, Effect: what they change; Seeds: which seeds are there
--   Server                json_rpc/server/authorization.rs; PwHash: password hashes as text; Authorized: which
--                         requests are let through
--   Server/HttpRequest    json_rpc/server/http_request_compatibility.rs; Versions: what each client gets
--   Params                json_rpc/utils.rs: parse_as_of_height, parse_minconf
--   Params/Account        json_rpc/utils.rs: parse_account_parameter; Indices: which account a number stands for
--   Shielding             json_rpc/methods/z_shieldcoinbase.rs: the parameters of a call; Accounting: its
--                         numbers; Totals, Remaining: what they add up to; Call: the handler; Policy: what a call
--                         sweeps and may reveal
--   Shielding/Keys        json_rpc/utils.rs: collect_standalone_transparent_keys; Lookup: which keys it finds
--   Transactions          json_rpc/methods/list_transactions.rs: the rows and what is read from them; Query: the
--                         query; Filter: which rows it lists; Sorting: when their order is the only one; Pages: reading it page by page
--   Unspent               json_rpc/methods/list_unspent.rs: the outputs and the loops over them; Call: the handler;
--                         Filters: which notes are listed; Conflicts: two addresses
--   Balances              json_rpc/methods/get_balances.rs; Shown, Reports: what it reports; Total:
--                         methods/z_get_total_balance.rs; Sums: what that adds up
--   Prelude               shared names, tests, lists, sets, integers and results
--
-- A state is a record, an enum a data type. A fallible function returns a Result; `none` of an Option stands
-- for a failed assertion, or for an empty fuel, where a comment says so. The steady-state loop is a computation
-- that passes the state on and ends with a result, an error or a failed assertion. Logging is left out.
--
-- Numbers are unbounded, with the code's own range tests written out; a height is below 2^32. Fuel: the
-- doublings of a locator step have 32, as many as a u32 has bits; the walk back has one more than the
-- starting height, as each round but the last goes down; the digits of a u64 are at most 20; the
-- batches of a range have one more than its length, as none is empty. The rounds of initialize may go on for
-- as long as the chain moves, so that no fuel is enough for them.
--
-- The key store's methods are steps between the points where they wait for a lock or a task; an aborted task
-- may still end the poll that it is in. The last time that a SystemTime represents is a parameter. The database
-- of the key store does not fail, and each of its methods runs in one piece.
--
-- Third-party code is a parameter: the zip321, zcash_address and hex crates (the record Zip321), Zatoshis,
-- the wallet's database (the record Database, or functions), the chain view (the record ChainView), UUIDs,
-- age, bip0039 and zip32 (the record Crypto), sapling (SaplingKeys), serde_json (Serde), HMAC, hex and base64
-- (Codecs), scan ranges, the batch decryptor (Scanner). The scanning of one block, the requests that need a
-- spend index, the configuration, the migrations and the other methods that only read the database are not
-- modelled.
pub mod Prelude
pub mod Rpc
pub mod Privacy
pub mod AsyncOp
pub mod Amount
pub mod Sync
pub mod Payments
pub mod Params
pub mod Sending
pub mod Keystore
pub mod Server
pub mod Shielding
pub mod Transactions
pub mod Unspent
pub mod Balances
