-- ===== src/Examples/Process/Top.antt =====
-- The order of list_top_processes (examples/tool_call_demo/ea_tool_process.cpp).
use mathlib.Core.List.{Perm}
use mathlib.Core.List.Perm
use embed_agent.Base.{◌≡◌, true, List, [], ◌∷◌, ℤ, leb_ℤ}
use embed_agent.Examples.Process.{ProcInfo}

-- No process of a list is larger than the size.
abbrev AtMost : ℤ → List ProcInfo → Type 0
AtMost b [] = Unit
AtMost b (x ∷ xs) = (leb_ℤ x.vm_rss_kb b ≡ true) × AtMost b xs

-- Each process is at least as large as all behind it.
abbrev pub IsDescending : List ProcInfo → Type 0
IsDescending [] = Unit
IsDescending (x ∷ xs) = AtMost x.vm_rss_kb xs × IsDescending xs
