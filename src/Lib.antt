-- ===== src/Lib.antt =====
-- Steam Account Manager: a model of the parts of the program whose promises are kept by pure
-- code.
--
-- The program keeps Steam accounts in an encrypted vault, signs in to them, watches them for
-- bans and cleans what Steam leaves on the PC. The parts below meet as follows. The cleaner
-- resolves a profile's targets to operations (core/cleaner/targets.cpp, profiles.cpp), turns
-- them into a plan, with a keep list of accounts to spare (plan.cpp), and runs the plan
-- (execute.cpp); planner and executor read and edit the documents of vdf_tree.cpp. A refresh
-- compares the new state of an account with its last snapshot (core/account_store/ban_diff.cpp)
-- and puts the alerts into the store of core/notifications/notification_store.cpp. The vaults
-- are listed in a registry, and a thread of its own writes the open one (app/). The list of
-- accounts is filtered and sorted (core/account_store/filter.cpp). Before Steam is started, its
-- own files are edited so that it signs in to one account (core/steam_local/loginusers.cpp).
-- Messages travel in frames (core/steam_cm/), those to the game coordinator inside them
-- (core/cs2_gc/). The encodings serve requests, tokens and Steam Guard; the ciphers open the
-- files of other authenticators. Requests go through proxies (core/http/proxy.cpp), trade offers
-- to the account a link names (core/trade/).
--
-- Every file models the code that its first lines name, by paths from the repository's root.
-- Functions and types keep their names, in the spelling of this language; a loop is a function
-- of its own.
--
--   Cleaner           the data of core/cleaner/: operations, keep list, accounts, targets, plans
--     ConnectCache    connect_cache_key, crc32_ieee, preserved_connect_cache_keys (plan.cpp)
--     Rewrites        rewrite_loginusers, rewrite_autologin, pick_autologin_redirect (plan.cpp)
--     ConfigRewrites  rewrite_config_vdf, rewrite_local_vdf (plan.cpp)
--     Planner         build_plan, build_plan_by_ids (plan.cpp)
--     Targets, PathTargets, Catalog   the resolvers and the catalog (targets.cpp, crash_dumps.cpp)
--     Profiles        the built-in profiles (profiles.cpp)
--     Execute         execute_one, walk_to_parent, execute (execute.cpp)
--     SparedFolders, SparedTokens, SparedLogins   the keep list in plans
--     Redirect, Measured, Surgical, Executed   the redirect, the totals, the edits, the results
--   VdfTree           core/cleaner/vdf_tree.cpp: the tree, and its Parser and Writer; RoundTrip, Fuel,
--                     ErrorPosition and Lookup are about them, by Quoted and Progress
--   Alerts            core/account_store/ban_event.hpp; Diff is ban_diff.cpp, Store is
--                     notification_store.cpp, Refresh joins them (apply_diff_and_snapshot of
--                     app/app_state_refresh.cpp, event_enabled of app/app_state.cpp); DiffSelf,
--                     DiffKinds, StorePush, StoreAck, StorePrune and StoreInvariant are about them
--   Accounts          core/account_store/account.hpp, as far as the filter reads it; Filter is filter.cpp;
--                     Order and Sorted are about its comparison and its result
--   App               VaultSaver is app/vault_saver.cpp as steps of its threads, with Order and Flush
--                     about them; VaultRegistry is app/vault_registry.cpp, with Kept and Startup;
--                     JobPump is app/job_pump.cpp as steps of its threads, with Conserved
--   Framing           put_u32 and read_u32; Message is core/steam_cm/message.cpp, Multi multi.cpp,
--                     GcMessage core/cs2_gc/gc_message.cpp; Words, Message.RoundTrip,
--                     GcMessage.RoundTrip, Multi.Split and Multi.Frames are about them
--   SteamLocal        the edits of core/steam_local/loginusers.cpp, with Remembered and Ensured about
--                     them; Text is its reader and writer, with RoundTrip and Total about them; Decimal
--                     is about the numbers it writes
--   Totp              core/sda/totp.cpp; Code and Window are about it
--   Crypto            what the ciphers share, and Padding about it; AesCbc is core/crypto/aes_cbc.cpp, with
--                     RoundTrip; Rijndael is core/crypto/rijndael256.cpp, with Linear, Inverse, Steps,
--                     Keys, Schedule, Cipher and Chaining about it, which hold an encryption to compare with
--   Http              Proxy is core/http/proxy.cpp, with RoundTrip and Bridged about it
--   Trade             Links is core/trade/trade_url.cpp, with RoundTrip and Accounts about it
--   Cs2               FriendCode is core/cs2/friend_code.cpp, with Rounds, Letters and Decoded about it;
--                     Kv is core/cs2_gc/kv.cpp, with Total about it
--   Codec             core/crypto/base64.cpp (Base64), core/strings.hpp (Hex), core/http/url.cpp (Url)
--   Common            what the components share
--   Tests             runs on concrete inputs
--
-- State is passed on explicitly. Numbers are natural numbers or integers without a bound, except
-- where wrapping around is written out (the base64 table, checksums, totals of a plan, words in
-- frames, the counts and bytes of a run). Strings are lists of code units or bytes. The parser of VDF runs on fuel, one unit
-- for each character of the text and one more. The parsers of Steam's own files and of the
-- game's texts run on as much, since each round or nested call takes a character at least. The
-- loop over bundled frames has one unit for each byte and one more, where a frame takes four at
-- least, and a run that takes more, or that reads beyond its buffer, has no result. Threads are
-- interleaved by lists of steps, each of them what a thread does under the mutex or one write;
-- the clock moves by steps of its own. `iswspace`, `towlower`, the clock, the registry, the
-- files and the platform's removals are parameters: a test on characters, the record Machine of
-- what the planner reads, the record Platform of what the executor does. protobuf's
-- serialization and the decompressor puff are functions that the framing takes, the HMAC one
-- that the codes take, MD5 one that the friend codes take, and mbedTLS's AES the record Aes. A
-- listener's port is what the operating system gives.
--
-- Not modelled: windows and drawing (ui/), the Windows API (platform/), hooks and hardware
-- tables (hwid_dll/, core/hwid/), HTTP, websockets, sockets and what only queries over them,
-- JSON and files of the stores, the messages of protobuf, and third-party code.
pub mod Common
pub mod Framing
pub mod Http
pub mod Accounts
pub mod Alerts
pub mod App
pub mod Cleaner
pub mod Codec
pub mod Crypto
pub mod Cs2
pub mod Tests
pub mod SteamLocal
pub mod Totp
pub mod Trade
pub mod VdfTree
