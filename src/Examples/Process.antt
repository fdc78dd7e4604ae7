-- ===== src/Examples/Process.antt =====
-- The process tools of examples/tool_call_demo/ea_tool_process.cpp, over the files of /proc.
mod Reading
pub mod Top
pub mod Stat
unfoldable pub use Reading.*
use embed_agent.Base.{
  ℕ, ◌+◌, Bool, true, false, not, ◌||◌, List, [], ◌∷◌, ◌++◌, Option, none, some, Text, codes, take,
  if◌then◌else◌, ltb, ◌==◌, ℤ, pos, negsuc, leb_ℤ, int_to_string, map,
}
use embed_agent.Files.{FileSystem}
use embed_agent.Cppev.{Json}
use embed_agent.Tool.Args.{ToolArgs, arg_int}
use embed_agent.Tool.Param.{ToolParam, ParamType, integer, quote, backslash}
use embed_agent.Tool.Registry.{Registry, ArgsHandler, register_typed_tool}
use embed_agent.Examples.Stream.{printed, listed}

-- jsonStr of this file, without its quotation marks: a line break becomes a blank.
unfoldable blank_json_chars : Text → Text
blank_json_chars [] = []
blank_json_chars (c ∷ cs) =
    let rest = blank_json_chars cs in
    if c == quote || c == backslash
    then backslash ∷ c ∷ rest
    else if c == 10 || c == 13
    then b' ' ∷ rest
    else c ∷ rest

abbrev blank_json_str : Text → Text
blank_json_str s = quote ∷ blank_json_chars s ++ quote ∷ []

abbrev pub cmp_by_rss : ProcInfo → ProcInfo → Bool
cmp_by_rss a b = not (leb_ℤ a.vm_rss_kb b.vm_rss_kb)

-- std::sort by cmpByRss, here without changing the order of processes of the same size.
unfoldable pub insert_by_rss : ProcInfo → List ProcInfo → List ProcInfo
insert_by_rss x [] = x ∷ []
insert_by_rss x (y ∷ ys) =
    let rest = insert_by_rss x ys in if cmp_by_rss y x then y ∷ rest else x ∷ (y ∷ ys)

unfoldable pub sort_by_rss : List ProcInfo → List ProcInfo
unfolding insert_by_rss
sort_by_rss [] = []
sort_by_rss (x ∷ xs) = insert_by_rss x (sort_by_rss xs)

-- The number of processes asked for, kept between 1 and 32.
unfoldable pub wanted_count : ℤ → ℕ
wanted_count (pos n) = if n == 0 then 5 else if ltb 32 n then 32 else n
wanted_count (negsuc n) = 5

-- The members that both results begin with.
abbrev process_members : ProcInfo → Text → Text
process_members p rest =
    codes "{\"pid\":"
    ++ (int_to_string p.pid
        ++ (codes ",\"name\":"
            ++ (blank_json_str p.name
                ++ (codes ",\"state\":\""
                    ++ (p.state ∷ codes "\",\"rss_kb\":"
                        ++ (int_to_string p.vm_rss_kb
                            ++ (codes ",\"virt_kb\":"
                                ++ (int_to_string p.vm_virt_kb
                                    ++ (codes ",\"threads\":"
                                        ++ (int_to_string p.num_threads
                                            ++ (codes ",\"user\":"
                                                ++ (blank_json_str p.user ++ rest))))))))))))

unfoldable pub process_entry : ProcInfo → Text
unfolding blank_json_chars
process_entry p = printed 512 (process_members p (codes "}"))

-- `cpu_seconds` is "%.2f" of the ticks used, by sysconf(_SC_CLK_TCK).
unfoldable process_details : (ℤ → ℤ → Text) → ProcInfo → Text
unfolding blank_json_chars
process_details cpu_seconds p = printed 1024 (
    process_members p (
      codes ",\"cpu_sec\":"
      ++ (cpu_seconds p.utime p.stime
          ++ (codes ",\"cmdline\":" ++ (blank_json_str p.cmdline ++ codes "}")))))

abbrev is_positive : ℤ → Bool
is_positive (pos n) = ltb 0 n
is_positive (negsuc n) = false

-- A process in front of the others; `none` where an exception leaves the handler.
abbrev add_inspected : Inspected → Option (List ProcInfo) → Option (List ProcInfo)
add_inspected missing rest = rest
add_inspected throws rest = none
add_inspected (inspected p) none = none
add_inspected (inspected p) (some ps) = some (p ∷ ps)

abbrev top_message : ℕ → Option (List ProcInfo) → Option (Bool × Text)
top_message count none = none
top_message count (some ps) =
    some (true, b'[' ∷ listed (map process_entry (take count (sort_by_rss ps))) ++ codes "]")

abbrev details_message : (ℤ → ℤ → Text) → ℤ → Inspected → Option (Bool × Text)
details_message cpu_seconds p missing =
    some (
      true,
      printed 64 (codes "{\"error\":\"process " ++ (int_to_string p ++ codes " not found\"}")),
    )
details_message cpu_seconds p throws = none
details_message cpu_seconds p (inspected info) = some (true, process_details cpu_seconds info)

module _ (F : FileSystem) (J : Json) (entries : F.State → Option (List Text))
    (cpu_seconds : ℤ → ℤ → Text) where
  open F use {State}

  -- The loop over the processes.
  unfoldable pub collect : State → List ℤ → Option (List ProcInfo)
  unfolding inspect
  collect s [] = some []
  collect s (p ∷ ps) = let rest = collect s ps in add_inspected (inspect F s p) rest

  -- The bool that a handler returns and its result; `none` where an exception leaves it.
  unfoldable pub handle_list_top_processes : State → ToolArgs J → Option (Bool × Text)
  unfolding collect list_pids sort_by_rss process_entry wanted_count arg_int
  handle_list_top_processes s args =
      top_message (wanted_count (arg_int J args (codes "count") (pos 5)))
        (collect s (list_pids (entries s)))

  unfoldable handle_get_process_info : State → ToolArgs J → Option (Bool × Text)
  unfolding inspect process_details arg_int
  handle_get_process_info s args =
      let p = arg_int J args (codes "pid") (negsuc 0) in
      if not (is_positive p)
      then some (true, codes "{\"error\":\"invalid pid\"}")
      else details_message cpu_seconds p (inspect F s p)

module _ (J : Json) where
  abbrev count_param : ToolParam
  count_param = record {
    name = codes "count";
    type = integer;
    description =
        codes "Number of processes to return (1-32, default 5), "
        ++ codes "sorted by resident memory usage (RSS) descending";
    required = false;
    enum_values = [];
  }

  abbrev pid_param : ToolParam
  pid_param = record {
    name = codes "pid";
    type = integer;
    description = codes "Process ID to inspect";
    required = true;
    enum_values = [];
  }

  -- registerProcessTools, with the two handlers as the registry calls them.
  unfoldable pub register_process_tools : ArgsHandler J → ArgsHandler J → Registry → Registry
  unfolding register_typed_tool
  register_process_tools list_top get_info tools =
      (register_typed_tool J
        (register_typed_tool J tools (codes "list_top_processes")
          (codes "List the top N processes on the system sorted by resident memory "
            ++ (codes "usage (RSS). Returns PID, name, state, RSS/virtual memory (KB), "
                ++ codes "thread count, and owner."))
          (count_param ∷ []) (some list_top)).0
        (codes "get_process_info")
        (codes "Return detailed information for a specific process: name, state "
          ++ (codes "(R/S/D/Z/T), RSS and virtual memory (KB), thread count, owner, "
              ++ codes "cumulative CPU time (seconds), and full command line."))
        (pid_param ∷ []) (some get_info)).0
