-- ===== src/Lib.antt =====
-- EmbedAgent: a C++ library that runs an LLM agent on a device with an unsteady network. A
-- coordinator hands the user's messages to an agent while the network is up and to an offline queue
-- while it is down; the agent keeps a session, asks an LLM through a client, and runs the tools that
-- the answers name, round by round.
--
-- The parts, by the files that model them (paths from the repository's root):
--   Session       src/ea_session.cpp: the history, with the budget that trim enforces
--                 (Session/Suffix and Session/Trim), the system message (Session/Prompt) and
--                 sequences of calls (Session/Append, Session/Reachable, Session/Rollback), and the
--                 snapshot of src/ea_session_codec.cpp (Session/Codec).
--   Agent         src/ea_agent.cpp: runTurn is `run_turn`, its completion callback `on_completion`;
--                 a request on its way holds its turn, as the callbacks in the source do.
--   Llm           src/ea_llm_client.cpp: `chat` and the ends of its requests in Llm/Client, the
--                 address in Llm/Url.
--   Tool          src/ea_tool_registry.cpp, src/ea_tool_param.cpp, src/ea_tool_args.cpp and
--                 include/ea_tool_builder.h.
--   Prompt        src/ea_prompt_template.cpp.
--   NetworkError  src/ea_network_error.cpp: which errors put a message into the queue.
--   Connectivity  src/ea_connectivity_monitor.cpp: the state of the network and its probe.
--   OfflineQueue  include/ea_offline_queue.h as a record of operations and laws, which
--                 OfflineQueue/Memory (src/ea_memory_offline_queue.cpp) fills; OfflineQueue/Item
--                 and OfflineQueue/File are src/ea_offline_queue.cpp and
--                 src/ea_file_offline_queue.cpp, with the outcomes of the file system as
--                 arguments (OfflineQueue/Reload and OfflineQueue/Log relate file and memory, and
--                 OfflineQueue/Stored makes it an offline queue of a coordinator).
--   Coordinator   src/ea_queue_coordinator.cpp, over any codec and any offline queue:
--                 submitUserMessage is `submit`, the lambdas that it hands to the agent are the data of
--                 `Callback`. Coordinator/Events has sequences of calls, Coordinator/Keeping and
--                 Coordinator/Durable the same over a queue in a file.
--   Session/Json  src/ea_session_codec.cpp: a session as a JSON text.
--   Storage       src/ea_file_storage.cpp: ensureDataDir (Storage/Directories), the settings
--                 (Storage/Settings), the session's file (Storage/Sessions).
--   Secret        src/ea_secret_obfuscator.cpp (Secret/Base64, Secret/Obfuscator, with the proofs in
--                 Secret/Base64Text and Secret/Cipher), src/ea_file_secret_store.cpp and
--                 src/ea_env_secret_store.cpp (Secret/Store, Secret/Kept), src/ea_secret_resolver.cpp
--                 and src/ea_runtime_config.cpp (Secret/Resolver, Secret/Lookup).
--   Files         the operating system's calls on files, a parameter, with what they promise for
--                 paths without links; Tests/Disk keeps files in memory in this way.
--   Cppev         the data and the interfaces of the cppev library: parameters of the model.
--                 Cppev/Reading says what its JSON library gives back of an object that it built.
--   Doubles       the floating-point numbers of C++, a parameter.
--   Examples      the tools of examples/tool_call_demo/, over the files of sysfs and /proc:
--                 Examples/Gpio (ea_tool_gpio.cpp), Examples/Network (ea_tool_network.cpp),
--                 Examples/Process (ea_tool_process.cpp), Examples/Sysinfo (ea_tool_sysinfo.cpp)
--                 and Examples/Thermal (ea_tool_thermal.cpp); Examples/Stream has what they share,
--                 the reads of a std::istream and the printing of JSON. Examples/Demo has the
--                 programs: what they print (Printer and Page, examples/common/ea_demo_io.cpp), the
--                 options, the start and the tools of examples/chat_agent/chat_agent.cpp and
--                 examples/tool_call_demo/tool_call_demo.cpp (Options, Launch, Asking, Request,
--                 Tools, Responses), and examples/offline_queue_demo/offline_queue_demo.cpp (Queue,
--                 Stored). `on_start` and `start_queue_demo` are their onStart, up to the return to
--                 the event loop.
--   Base, Tests   shared helpers; sample data and examples.
--
-- Objects are records, passed on and returned. A call that would call a user's callback adds to the
-- agent's `outputs`, in the order of the calls; these callbacks do not call back. A text is the list
-- of its bytes. An `int` is a ℤ that does not overflow; std::size_t is a natural number, and the one
-- subtraction on it that can wrap (in trim) is written out modulo 2^64.
--
-- Fuel: the loops of trim have a round for each message; replace_all one for each character; a turn
-- one for each round that maxToolRoundTrips allows and one more, since each round counts up to that
-- limit; tryFlush the size of the queue and three: each of its calls of itself comes after an item is
-- removed or after the one change of the state from offline or unknown to online; mkdirRecursive
-- the length of the path and one, since a parent's path is shorter;
-- read_memory the characters of the text and one, since a round that goes on has read one.
--
-- Not modelled: logging (and printSessionTranscript, which only logs), the event loop, the retry
-- policy of requests, the usage texts and the parsing of the command line of the demonstration
-- programs, the arithmetic of floating-point numbers. The agent's own calls of the storage only say
-- in `outputs` that they are made.
mod Base
mod Tests
pub mod Cppev
pub mod Doubles
pub mod Session
pub mod OfflineQueue
pub mod Connectivity
pub mod NetworkError
pub mod Tool
pub mod Prompt
pub mod Llm
pub mod Agent
pub mod Coordinator
pub mod Secret
pub mod Files
pub mod Examples
pub mod Storage
