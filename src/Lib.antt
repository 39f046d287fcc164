-- ===== src/Lib.antt =====
-- A model of chudbot: the retry loop, the reducer of model-step streams, the agent runtime of
-- crates/chudbot-api, the message splitting of crates/chudbot-discord, the prompt changes and the
-- replay of crates/chudbot-bot with the reading of prompts in crates/chudbot-storage-sqlx, the rooms
-- and the collection watches of crates/chudbot-web, the access rules and names of crates/chudbot-vibe,
-- and the messages of crates/chudbot-anthropic.
--
-- How the parts interact. A provider yields the events of one model step; the collector reduces them
-- to a step. The agent asks its backend for a step, reduces the stream, folds the step into the run
-- and either stops, goes on, or runs the client tools that the step asks for and goes on. The retry
-- loop is what provider adapters wrap around one request. Before a turn runs, the bot writes the parts
-- of the prompt that changed into its transcript; storage reads a turn's prompt back from them; and
-- a later turn replays the stored steps and tool results of the earlier ones. The Anthropic provider
-- turns the transcript of a step's request into the messages of its API.
--
-- * Common and its children: tests on numbers, lists, texts (lists of code points) and maps
--   (association lists).
-- * Retry (crates/chudbot-api/src/retry.rs): `RetryPolicy`, `should_retry`, `backoff`,
--   `retry_after_error`, `with_retry`. Durations are nanoseconds. The loop runs on fuel
--   `max_attempts + 1`, which is enough since each round raises `attempt`.
-- * Model (llm.rs, tool.rs, transcript.rs, usage.rs, reasoning.rs and storage.rs of the same crate):
--   the data, generic in the JSON value and the media handle. Model.Output holds the projections of
--   `ModelStepOutput`.
-- * Collector (collector.rs): `ModelStepCollector` with `push`, `finish`, and `collect_model_step`.
--   A panic of the source (`expect`) is `none`. `serde_json::from_str` is the parameter `Json`.
-- * Agent (agent.rs): the data. Agent.Instructions is the prompt, Agent.Tools the tool surfaces and
--   `execute_client_tool_calls`, Agent.Read the reading of one stream with its deadline, Agent.Run the
--   folding of a step, Agent.Run.Loop `Agent::run` and `collect_agent_run`. `serde_json::Value` is the
--   parameter `Values`, with the laws that a field of a built object is found and that a Boolean is
--   read back. The backend and the executor are functions of the `Environment`; the iterations are
--   structural recursion on `max_iterations`. Time is the moment at which each stream item is ready,
--   in nanoseconds; a stream has finitely many items, and one that then never ends makes the run wait;
--   a stream that yields items for ever is not modelled. `stuck` says which calls of tools never
--   return or panic, and `latest` is the last `Instant`. A provider does not panic, and a tool's side
--   effects are not modelled.
-- * Discord (crates/chudbot-discord/src/lib.rs): `split_discord_content` and what it calls, with
--   Discord.Markdown for the segments and fences, and Discord.Attachments for the batches and
--   `next_reconnect_delay`. A text is its characters and a byte position becomes a character count.
--   The cutting loop has one unit of fuel more than the text has characters; each round cuts off one
--   at least.
-- * Rooms (crates/chudbot-web/src/vibe_rooms.rs): `RoomState` with what `join`, `leave`, `broadcast`
--   and `set_state` do under the room's lock; Rooms.Hub has `RoomHub` and its counters, and
--   Rooms.Commands `CommandRate` and the checks of names. An operation of the hub is one step there, and
--   `outbound_queue` is at least one, as the configuration's check demands.
--   Rooms.Threads has the joins and leaves of one site interleaved, with one step for each time a lock
--   is held or a counter changes (but one for the removal of an empty room with the release of its
--   place), and rooms that a connection still holds after they were closed;
--   a room there is its clients only, and the hub's counter and the removal of an empty site are left
--   out. A new connection id is an argument, and the theorems on joins ask that no room has it,
--   as `Uuid::new_v4` promises. A message is the value that the source serialises.
-- * Prompt (the durable changes of the prompt): Prompt.Changes is
--   `insert_agent_instruction_part_changes_before_current_turn` of crates/chudbot-bot/src/turns.rs
--   with what it calls, which writes a system turn for each part of the prompt that changed.
--   Prompt.Markers is `stored_agent_instruction_state_at_boundary` of
--   crates/chudbot-storage-sqlx/src/snapshots.rs with the reading of a row, which gets the prompt
--   of a turn back from the stored turns. The SQL in between is not modelled beyond the row of a
--   turn (`turn_row`). `serde_json` is the parameter `Json`: a string and an i32 are read back, and an
--   object's fields are what `get` finds. A `BTreeMap` is a list in the order of its keys.
-- * Replay (crates/chudbot-bot/src/transcript.rs): `append_model_step_replay` with
--   `client_tool_results_by_id` and `provider_client_tool_call_ids`. Replay.Strip is
--   `strip_generated_media_refs`, whose `while` loop has one unit of fuel more than the text has
--   characters; each round removes one at least. The shape of a continuation's JSON is the parameter
--   `Readable`. Fixtures is a JSON type for the tests.
-- * Vibe (crates/chudbot-vibe/src/access.rs): `check_rollout` and `check_site`. Vibe.Names (names.rs) is
--   `VibeNames`, with `str::len` as the number of bytes in UTF-8.
-- * Common.Results (`Result` of Rust) and Model.Images (`resolve_image_reference` of
--   crates/chudbot-api/src/llm.rs; a media handle is the parameter `MediaAccess`). Agent.Leading is
--   `leading_system_text` with `leading_system_turn_count` of transcript.rs.
-- * Anthropic (crates/chudbot-anthropic/src/llm.rs): Anthropic.Content is the content of one turn,
--   Anthropic.Messages is `to_anthropic_messages`, whose loop is structural recursion on the turns.
--   What it needs of `serde_json` beyond `Json` is the parameter `Wire`.
-- * Watches (crates/chudbot-web/src/vibe_collections.rs): the subscription, the filters and the changes
--   that one watch is sent; Watches.Hub is `CollectionWatchHub` with `join`, `leave` and `publish`, each
--   one step under its locks. A channel is the list of its messages, no longer than `outbound_queue`;
--   `try_send` fails exactly if it is full. Watches.Runs is a sequence of operations.
--   `==` of JSON values is a parameter; an identifier is an argument of the join, as for the rooms.
--
-- Not modelled: logging, the providers' wire formats but Anthropic's messages, SQL storage, the web
-- server's handlers, file and object storage, the frontend, and the wiring of the binary, which are I/O or other languages.
-- So are most of the bot turns and of the vibe apps, which are calls of the storage and the sandbox.
pub mod Agent
pub mod Anthropic
pub mod Collector
pub mod Common
pub mod Discord
pub mod Fixtures
pub mod Model
pub mod Prompt
pub mod Replay
pub mod Retry
pub mod Rooms
pub mod Vibe
pub mod Watches
