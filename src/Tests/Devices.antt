-- ===== src/Tests/Devices.antt =====
-- Examples for the tools that read /proc, over files in memory.
use embed_agent.Base.{
  ℕ, ◌≡◌, ◌≤◌, refl, Bool, false, [], ◌∷◌, ◌++◌, List, Option, none, some, Text, codes, text_eq,
  arith, pos, ℤ, map, text_eq, ◌+◌, ◌*◌, ◌/◌,
}
use embed_agent.Cppev.{Json}
use embed_agent.Files.{Kind}
use embed_agent.Tool.Args.{ToolArgs}
use embed_agent.Examples.Stream.Reads.{spaced}
use embed_agent.Examples.Process.{ProcInfo, new_info, stat_times}
use embed_agent.Examples.Process.Stat.{times_text, stat_times-fields}
use embed_agent.Examples.Sysinfo.{DiskStats, disk_use, block_size, memory_of}
use embed_agent.Examples.Sysinfo.Meminfo.{Entry, meminfo_text, memory_of-meminfo_text}
use embed_agent.Examples.Sysinfo.Usage.{disk_use-exact}
use embed_agent.Tests.Disk.{Disk, update}

abbrev no_json : Json
no_json = record {
  Doc = Bool;
  empty_doc = false;
  parse = λ t. none;
  get_string = λ d key. none;
  get_int = λ d key. none;
  get_bool = λ d key. none;
  get_object = λ d key. none;
}

abbrev ten_fields : List Text
ten_fields = map (λ (c : ℕ). c ∷ []) (codes "1234567890")

-- A process whose name has a parenthesis.
stat_times-fields_example :
    stat_times
      (codes "7 (a) R"
        ++ b')' ∷ spaced (codes "S" ∷ ten_fields) (b' ' ∷ times_text 12 34 (codes "0"))
        ++ 10 ∷ [])
      (pos 0, pos 0)
    ≡ some (pos 12, pos 34)
stat_times-fields_example =
    stat_times-fields (codes "7 (a) R") (codes "S" ∷ ten_fields) 12 34 (codes "0") (pos 0, pos 0)
      refl refl refl (omega arith) (omega arith) refl refl

abbrev one_process : Disk
one_process =
    update (λ p. none) (codes "/proc/7/status")
      (some (record {
        kind = Kind.regular;
        text = codes "Name: sh" ++ 10 ∷ (codes "VmRSS: 12 kB" ++ 10 ∷ []);
      }))

abbrev processes : Disk → Option (List Text)
processes s = some (codes "self" ∷ (codes "7" ∷ []))

abbrev no_seconds : ℤ → ℤ → Text
no_seconds u t = []

abbrev no_args : ToolArgs no_json
no_args = record { valid = false; doc = false }

abbrev shell : ProcInfo
shell = record (new_info (pos 7)) { name = codes "sh"; vm_rss_kb = pos 12 }

abbrev two_entries : List Entry
two_entries =
    record { key = codes "MemTotal:"; padding = 3; value = 100 }
    ∷ (record { key = codes "MemFree:"; padding = 0; value = 40 } ∷ [])

memory_of-meminfo_text_example : memory_of (some (meminfo_text two_entries)) ≡ record {
  total_kb = pos 100;
  free_kb = pos 40;
  available_kb = pos 0;
  buffers_kb = pos 0;
  cached_kb = pos 0;
  swap_total_kb = pos 0;
  swap_free_kb = pos 0;
}
unfolding text_eq
memory_of-meminfo_text_example =
    memory_of-meminfo_text two_entries (refl, omega arith, (refl, omega arith, tt))

abbrev some_disk : DiskStats
some_disk = record { frsize = 0; bsize = 4096; blocks = 100; bfree = 25; bavail = 20 }

disk_use-exact_example :
    ((disk_use some_disk).total_bytes ≡ block_size some_disk * some_disk.blocks)
    × ((disk_use some_disk).free_bytes ≡ block_size some_disk * some_disk.bfree)
    × ((disk_use some_disk).used_bytes + (disk_use some_disk).free_bytes
        ≡ (disk_use some_disk).total_bytes)
    × ((disk_use some_disk).used_percent
        ≡ ((disk_use some_disk).used_bytes * 100) / (disk_use some_disk).total_bytes)
    × ((disk_use some_disk).used_percent ≤ 100)
disk_use-exact_example = disk_use-exact some_disk (omega arith) (omega arith)
