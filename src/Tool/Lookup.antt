-- ===== src/Tool/Lookup.antt =====
-- The names in an EaToolRegistry and what `invoke` calls (src/ea_tool_registry.cpp).
use embed_agent.Base.{
  ◌≡◌, refl, ap, ◌⊎◌, inl, inr, true, false, ◌||◌, List, [], ◌∷◌, ◌++◌, none, Text, is_empty,
  if◌then◌else◌, text_eq, text_eq_refl, text_eq→eq, text_eq_cong, arith, Bool-cases,
}
use embed_agent.Tool.Registry.{
  ToolSpec, Registry, is_null, has_tool, register_tool, call_handler, find_and_call, invoke,
}

-- No name stands twice, and every tool has a name and a handler.
abbrev pub IsValid : Registry → Type 0
IsValid [] = Unit {0}
IsValid (t ∷ ts) =
    (is_empty t.def.name ≡ false)
    × (is_null t.handler ≡ false)
    × (has_tool ts t.def.name ≡ false)
    × IsValid ts

-- Registration of a list of specs, in turn.
pub register_all : Registry → List ToolSpec → Registry
register_all tools [] = tools
register_all tools (s ∷ ss) = register_all (register_tool tools s).0 ss

text_eq_sym : (s t : Text) → text_eq s t ≡ false → text_eq t s ≡ false
text_eq_sym s t h = elim (Bool-cases (text_eq t s)) [
  | inl e ↦
      absurd
        (ground (arith, text_eq→eq t s e, text_eq_refl s, ap (λ u. text_eq s u) (text_eq→eq t s e)))
  | inr e ↦ e
]

has_tool-append :
    (ts : Registry) (s : ToolSpec) (name : Text)
    → has_tool (ts ++ s ∷ []) name ≡ (has_tool ts name || text_eq s.def.name name)
unfolding has_tool
has_tool-append [] s name = ground arith
has_tool-append (t ∷ ts) s name = ground (arith, has_tool-append ts s name)

append-IsValid :
    (ts : Registry) (s : ToolSpec)
    → IsValid ts
    → is_empty s.def.name ≡ false
    → is_null s.handler ≡ false
    → has_tool ts s.def.name ≡ false
    → IsValid (ts ++ s ∷ [])
unfolding has_tool
append-IsValid [] s v named handled new = (named, handled, refl, tt)
append-IsValid (t ∷ ts) s v named handled new = (
  v.0,
  v.1,
  ground (arith, has_tool-append ts s t.def.name, text_eq_sym t.def.name s.def.name),
  append-IsValid ts s v.3 named handled (ground arith),
)

register_tool-IsValid : (ts : Registry) (s : ToolSpec) → IsValid ts → IsValid (register_tool ts s).0
unfolding register_tool
register_tool-IsValid ts s v = elim (Bool-cases (is_empty s.def.name || is_null s.handler)) [
  | inl refused ↦ rw refused v
  | inr proper ↦ rw proper (elim (Bool-cases (has_tool ts s.def.name)) [
    | inl taken ↦ rw taken v
    | inr new ↦ rw new (append-IsValid ts s v (ground arith) (ground arith) new)
  ])
]

register_all-IsValid :
    (ts : Registry) (ss : List ToolSpec) → IsValid ts → IsValid (register_all ts ss)
unfolding register_all
register_all-IsValid ts [] v = v
register_all-IsValid ts (s ∷ ss) v =
    register_all-IsValid (register_tool ts s).0 ss (register_tool-IsValid ts s v)

-- Whatever is registered, in whatever order, the registry's names are distinct and not empty, and
-- no handler in it is null.
pub register_all_empty-IsValid : (ss : List ToolSpec) → IsValid (register_all [] ss)
register_all_empty-IsValid ss = register_all-IsValid [] ss tt

find_and_call-none :
    (ts : Registry) (name args : Text)
    → has_tool ts name ≡ false
    → find_and_call ts name args ≡ none
unfolding has_tool find_and_call
find_and_call-none [] name args h = refl
find_and_call-none (t ∷ ts) name args h = ground (arith, find_and_call-none ts name args)

find_and_call-append :
    (ts : Registry) (s : ToolSpec) (name args : Text)
    → has_tool ts s.def.name ≡ false
    → find_and_call (ts ++ s ∷ []) name args ≡ (
        if text_eq s.def.name name then call_handler s.handler args else find_and_call ts name args)
unfolding has_tool find_and_call
find_and_call-append [] s name args new = refl
find_and_call-append (t ∷ ts) s name args new =
    ground (arith, find_and_call-append ts s name args, text_eq_cong t.def.name s.def.name name)

-- A tool that registerTool accepts is called by its name, and no other name's call changes; a tool
-- that it refuses changes nothing.
pub invoke-register_tool :
    (ts : Registry) (s : ToolSpec) (name args : Text)
    → let r = register_tool ts s in
      ((r.1 ≡ false) × (r.0 ≡ ts))
      ⊎ ((r.1 ≡ true)
          × (invoke r.0 name args true ≡ (
              if text_eq s.def.name name
              then call_handler s.handler args
              else invoke ts name args true)))
unfolding register_tool invoke
invoke-register_tool ts s name args = elim (Bool-cases (is_empty s.def.name || is_null s.handler)) [
  | inl refused ↦ rw refused (inl (refl, refl))
  | inr proper ↦ rw proper (elim (Bool-cases (has_tool ts s.def.name)) [
    | inl taken ↦ rw taken (inl (refl, refl))
    | inr new ↦ rw new (inr (refl, find_and_call-append ts s name args new))
  ])
]
