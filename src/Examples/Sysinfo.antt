-- ===== src/Examples/Sysinfo.antt =====
-- The tools of examples/tool_call_demo/ea_tool_sysinfo.cpp, over the files of /proc.
pub mod Meminfo
pub mod Usage
use embed_agent.Base.{
  ℕ, zero, suc, ◌+◌, ◌-◌, ◌*◌, ◌/◌, ◌%◌, ◌^◌, Bool, true, false, List, [], ◌∷◌, ◌++◌, Option, none,
  some, Text, codes, length, if◌then◌else◌, text_eq, ltb, ◌==◌, ℤ, pos, negsuc, sub_ℤ, scale_ℤ,
  quot_ℤ, rem_ℤ, int_to_string, to_string,
}
use embed_agent.Files.{FileSystem}
use embed_agent.Cppev.{Json}
use embed_agent.Doubles.{Doubles}
use embed_agent.Tool.Args.{ToolArgs, arg_string}
use embed_agent.Tool.Param.{ToolParam, ParamType, string}
use embed_agent.Tool.Registry.{Registry, register_typed_tool}
use embed_agent.Examples.Stream.{
  Stream, stream, failed_stream, skip_blanks, in_word, in_char, in_signed, skip_line, printed,
  json_str, json_chars,
}

-- The variables of handleGetMemoryInfo.
pub record MemInfo : Type 0 where
  pub total_kb : ℤ
  pub free_kb : ℤ
  pub available_kb : ℤ
  pub buffers_kb : ℤ
  pub cached_kb : ℤ
  pub swap_total_kb : ℤ
  pub swap_free_kb : ℤ

abbrev pub no_memory : MemInfo
no_memory = record {
  total_kb = pos 0;
  free_kb = pos 0;
  available_kb = pos 0;
  buffers_kb = pos 0;
  cached_kb = pos 0;
  swap_total_kb = pos 0;
  swap_free_kb = pos 0;
}

unfoldable pub set_memory : MemInfo → Text → ℤ → MemInfo
unfolding text_eq
set_memory m key value =
    if text_eq key (codes "MemTotal:")
    then record m { total_kb = value }
    else if text_eq key (codes "MemFree:")
    then record m { free_kb = value }
    else if text_eq key (codes "MemAvailable:")
    then record m { available_kb = value }
    else if text_eq key (codes "Buffers:")
    then record m { buffers_kb = value }
    else if text_eq key (codes "Cached:")
    then record m { cached_kb = value }
    else if text_eq key (codes "SwapTotal:")
    then record m { swap_total_kb = value }
    else if text_eq key (codes "SwapFree:")
    then record m { swap_free_kb = value }
    else m

-- The loop over the lines. Each round that goes on has read a character.
unfoldable pub read_memory : ℕ → Stream → MemInfo → MemInfo
unfolding in_word in_signed skip_line set_memory
read_memory zero s m = m
read_memory (suc fuel) s m =
    let key = in_word s [] in
    let value = in_signed 64 key.0 (pos 0) in
    let rest = read_memory fuel (skip_line value.0) (set_memory m key.1 value.1) in
    if value.0.good then rest else m

unfoldable pub memory_of : Option Text → MemInfo
unfolding read_memory
memory_of none = no_memory
memory_of (some text) = read_memory (suc (length text)) (stream text) no_memory

abbrev pub at_least_zero : ℤ → ℤ → ℤ
at_least_zero (pos n) other = pos n
at_least_zero (negsuc n) other = other

-- The used memory, without the buffers and the cache where that is not negative.
unfoldable pub used_kb : MemInfo → ℤ
used_kb m =
    at_least_zero (sub_ℤ (sub_ℤ (sub_ℤ m.total_kb m.free_kb) m.buffers_kb) m.cached_kb)
      (sub_ℤ m.total_kb m.free_kb)

abbrev pub percent_of : ℤ → ℤ → ℤ
percent_of used (pos zero) = pos 0
percent_of used (pos (suc n)) = quot_ℤ (scale_ℤ used 100) (suc n)
percent_of used (negsuc n) = pos 0

unfoldable pub memory_percent : MemInfo → ℤ
unfolding used_kb
memory_percent m = percent_of (used_kb m) m.total_kb

abbrev megabytes : Text → ℤ → Text → Text
megabytes name kb rest =
    codes "\"" ++ (name ++ (codes "\":" ++ (int_to_string (quot_ℤ kb 1024) ++ (b',' ∷ rest))))

unfoldable memory_message : MemInfo → Text
unfolding memory_percent used_kb
memory_message m = printed 512 (
    b'{'
    ∷ megabytes (codes "total_mb") m.total_kb (
        megabytes (codes "used_mb") (used_kb m) (
          megabytes (codes "free_mb") m.free_kb (
            megabytes (codes "available_mb") m.available_kb (
              megabytes (codes "buffers_mb") m.buffers_kb (
                megabytes (codes "cached_mb") m.cached_kb (
                  megabytes (codes "swap_total_mb") m.swap_total_kb (
                    megabytes (codes "swap_free_mb") m.swap_free_kb (
                      codes "\"used_percent\":"
                      ++ (int_to_string (memory_percent m) ++ codes "}"))))))))))

-- The numbers of struct statvfs that are read, each of 64 bits.
pub record DiskStats : Type 0 where
  pub frsize : ℕ
  pub bsize : ℕ
  pub blocks : ℕ
  pub bfree : ℕ
  pub bavail : ℕ

-- The numbers of bytes, modulo 2^64 as the source computes them.
pub record DiskUse : Type 0 where
  pub total_bytes : ℕ
  pub free_bytes : ℕ
  pub used_bytes : ℕ
  pub avail_bytes : ℕ
  pub used_percent : ℕ

abbrev pub block_size : DiskStats → ℕ
block_size d = if d.frsize == 0 then d.bsize else d.frsize

abbrev pub disk_percent : ℕ → ℕ → ℕ
disk_percent used zero = 0
disk_percent used (suc t) = ((used * 100) % 2 ^ 64) / suc t

unfoldable pub disk_use : DiskStats → DiskUse
disk_use d =
    let total = (block_size d * d.blocks) % 2 ^ 64 in
    let free = (block_size d * d.bfree) % 2 ^ 64 in
    let used = (total + 2 ^ 64 - free) % 2 ^ 64 in
    record {
      total_bytes = total;
      free_bytes = free;
      used_bytes = used;
      avail_bytes = (block_size d * d.bavail) % 2 ^ 64;
      used_percent = disk_percent used total;
    }

-- static_cast<int> of an unsigned 64-bit number.
abbrev int_of : ℕ → ℤ
int_of n = if ltb (n % 2 ^ 32) (2 ^ 31) then pos (n % 2 ^ 32) else negsuc (2 ^ 32 - 1 - n % 2 ^ 32)

abbrev disk_param : ToolParam
disk_param = record {
  name = codes "path";
  type = string;
  description =
      codes "Filesystem mount point or directory path to inspect "
      ++ codes "(e.g. \"/\", \"/home\", \"/var\")";
  required = false;
  enum_values = [];
}

-- `statvfs` is the system call, `none` where it fails, and `errno_text` is std::strerror(errno).
module _ (F : FileSystem) (J : Json) (D : Doubles) (statvfs : F.State → Text → Option DiskStats)
    (errno_text : F.State → Text) where
  open F use {State, read_file}
  open D use {Double, of_int, to_int, mul, div, fixed, read}

  abbrev stream_behind : Option Text → Stream
  stream_behind none = failed_stream
  stream_behind (some rest) = stream rest

  abbrev double_at : Text → Double → Stream × Double
  double_at [] old = (failed_stream, old)
  double_at (c ∷ cs) old = (stream_behind (read (c ∷ cs)).0, (read (c ∷ cs)).1)

  -- `in >> x`, with the variable's value before it.
  unfoldable in_double : Stream → Double → Stream × Double
  unfolding skip_blanks
  in_double s old = if s.good then double_at (skip_blanks s.rest) old else (s, old)

  abbrev zero_double : Double
  zero_double = of_int (pos 0)

  -- The up time in /proc/uptime.
  unfoldable uptime_of : Option Text → Double
  unfolding in_double
  uptime_of none = zero_double
  uptime_of (some text) = (in_double (stream text) zero_double).1

  -- The three loads and the two numbers of processes in /proc/loadavg.
  unfoldable loads_of : Option Text → Double × Double × Double × ℤ × ℤ
  unfolding in_double in_signed in_char
  loads_of none = (zero_double, zero_double, zero_double, pos 0, pos 0)
  loads_of (some text) =
      let load1 = in_double (stream text) zero_double in
      let load5 = in_double load1.0 zero_double in
      let load15 = in_double load5.0 zero_double in
      let running = in_signed 32 load15.0 (pos 0) in
      let slash = in_char running.0 b'/' in
      let total = in_signed 32 slash.0 (pos 0) in (load1.1, load5.1, load15.1, running.1, total.1)

  unfoldable handle_get_system_info : State → ToolArgs J → Bool × Text
  unfolding uptime_of loads_of
  handle_get_system_info s args =
      let uptime = to_int (uptime_of (read_file s (codes "/proc/uptime"))) in
      let loads = loads_of (read_file s (codes "/proc/loadavg")) in
      let minutes = quot_ℤ uptime 60 in
      (
        true,
        printed 256 (
            codes "{\"uptime_sec\":"
            ++ (int_to_string uptime
                ++ (codes ",\"uptime_h\":"
                    ++ (int_to_string (quot_ℤ minutes 60)
                        ++ (codes ",\"uptime_m\":"
                            ++ (int_to_string (rem_ℤ minutes 60)
                                ++ (codes ",\"load_1min\":"
                                    ++ (fixed 2 loads.0
                                        ++ (codes ",\"load_5min\":"
                                            ++ (fixed 2 loads.1
                                                ++ (codes ",\"load_15min\":"
                                                    ++ (fixed 2 loads.2
                                                        ++ (codes ",\"running_procs\":"
                                                            ++ (int_to_string loads.3
                                                            ++ (codes ",\"total_procs\":"
                                                            ++ (int_to_string loads.4
                                                            ++ codes "}")))))))))))))))),
      )

  unfoldable handle_get_memory_info : State → ToolArgs J → Bool × Text
  unfolding memory_of memory_message
  handle_get_memory_info s args =
      (true, memory_message (memory_of (read_file s (codes "/proc/meminfo"))))

  -- A number of bytes in units of 2^30, with two digits.
  abbrev gigabytes : ℕ → Text
  gigabytes bytes = fixed 2 (
      div (of_int (pos bytes))
        (mul (mul (of_int (pos 1024)) (of_int (pos 1024))) (of_int (pos 1024))))

  unfoldable disk_message : Text → DiskUse → Text
  unfolding json_chars
  disk_message path d = printed 512 (
      codes "{\"path\":"
      ++ (json_str path
          ++ (codes ",\"total_gb\":"
              ++ (gigabytes d.total_bytes
                  ++ (codes ",\"used_gb\":"
                      ++ (gigabytes d.used_bytes
                          ++ (codes ",\"free_gb\":"
                              ++ (gigabytes d.free_bytes
                                  ++ (codes ",\"available_gb\":"
                                      ++ (gigabytes d.avail_bytes
                                          ++ (codes ",\"used_percent\":"
                                              ++ (int_to_string (int_of d.used_percent)
                                                  ++ codes "}"))))))))))))

  unfoldable handle_get_disk_usage : State → ToolArgs J → Bool × Text
  unfolding disk_use disk_message arg_string json_chars
  handle_get_disk_usage s args =
      let path = arg_string J args (codes "path") (codes "/") in
      elim (statvfs s path) [
        | none ↦ (
          true,
          printed 256 (
              codes "{\"error\":\"statvfs failed: "
              ++ (errno_text s ++ (codes "\",\"path\":" ++ (json_str path ++ codes "}")))),
        )
        | some d ↦ (true, disk_message path (disk_use d))
      ]

  -- registerSysinfoTools, at a time when the files are in the state `s`.
  unfoldable pub register_sysinfo_tools : State → Registry → Registry
  unfolding register_typed_tool handle_get_system_info handle_get_memory_info handle_get_disk_usage
  register_sysinfo_tools s tools =
      let one =
        (register_typed_tool J tools (codes "get_system_info")
          (codes "Return the system uptime (seconds, hours, minutes) and CPU load averages "
            ++ codes "for the past 1, 5, and 15 minutes, plus running/total process counts.")
          [] (some (handle_get_system_info s))).0 in
      let two =
        (register_typed_tool J one (codes "get_memory_info")
          (codes "Return a breakdown of physical RAM and swap usage: total, used, free, "
            ++ codes "available, buffers, cached (all in MB) and used percentage.")
          [] (some (handle_get_memory_info s))).0 in
      (register_typed_tool J two (codes "get_disk_usage")
        (codes "Return filesystem usage statistics for a given path: "
          ++ codes "total, used, free, and available space in GB plus used percentage.")
        (disk_param ∷ []) (some (handle_get_disk_usage s))).0
