-- ===== src/KvStore.antt =====
-- src/etha/kvstore/base.py: the keys of a store.
pub mod Names
pub mod Tcp
pub mod Etcd
pub mod Watch
pub mod Polling
pub mod Candidates
pub mod Waits
pub mod Backends
mod Examples
use etha.Prelude.{
  pair_eq, List-cases, select, select-append, nat_beq, nat_beq_iff, list_beq, list_beq_iff, ℕ, zero,
  suc, ◌+◌, ◌-◌, ◌*◌, ◌/◌, ◌%◌, ◌^◌, ◌≤◌, ◌<◌, min, max, ◌≡◌, refl, sym, ap, ap₂, subst, fun_ext,
  ◌∙◌, ◌≢◌, ◌↔◌, ◌⊎◌, inl, inr, Bool, true, false, ◌&&◌, ◌||◌, not, Option, none, some, List, [],
  ◌∷◌, ◌++◌, map, arith, ltb, leb, ◌==◌, Eq, nat_eq, list_eq, if◌then◌else◌, Bool-cases,
  Option-cases, length, get_elem?, take, drop, length-append, length-drop, All, All-append, sum,
  sum-append,
}

-- Texts and bytes are lists of numbers.
abbrev pub Text : Type 0
Text = List ℕ

-- The namespace of a store and its default component.
pub record KvNames : Type 0 where
  pub namespace : Text
  pub component : Text

-- `component or self.component`
unfoldable pub component_of : KvNames → Option Text → Text
component_of n none = n.component
component_of n (some []) = n.component
component_of n (some (c ∷ cs)) = c ∷ cs

abbrev pub slash : ℕ
slash = b'/'

-- `_prefixed`
unfoldable pub prefixed : KvNames → Text → Option Text → Text
unfolding component_of
prefixed n key component = n.namespace ++ slash ∷ (component_of n component ++ slash ∷ key)

-- What follows the first slash.
unfoldable pub after_slash : Text → Option Text
after_slash [] = none
after_slash (c ∷ cs) = if c == slash then some cs else after_slash cs

-- `parts[2] if len(parts) > 2 else key`
unfoldable pub third_part : Text → Option Text → Text
unfolding after_slash
third_part key none = key
third_part key (some rest) = elim (after_slash rest) [ none ↦ key | some part ↦ part ]

-- `_strip_prefix`
unfoldable pub strip_prefix : Text → Text
unfolding third_part
strip_prefix key = third_part key (after_slash key)
