-- ===== src/Tests/Plugins.antt =====
-- crates/ferroq-gateway/src/plugin_engine.rs at concrete inputs.
use ferroq.Prelude.{
  ℕ, ◌+◌, ◌≤◌, ◌<◌, ◌≡◌, refl, String, true, none, some, List, [], ◌∷◌, ◌⊎◌, inl, inr, arith,
  nat_eq, if◌then◌else◌,
}
use ferroq.Prelude.Int.{ℤ, pos, negsuc}
use ferroq.Core.Plugin.{default_info, continue}
use ferroq.Plugins.{event_hook, Store, Instance, WasmPlugin, Codec, process, alloc_and_write}
use ferroq.Plugins.Order.{Outcome, process_lem}
use ferroq.Plugins.Buffer.{Asked, stale_buffer}
use ferroq.Plugins.Abi.{
  trap, panic, value, guest_bytes, LiesAt, ReachesBack, Misses, guest_bytes_lem,
}

abbrev numbers : Codec ℕ
numbers = record {
  to_bytes = λ n. inr (n ∷ []);
  from_slice = λ bytes. elim bytes [ [] ↦ none | n ∷ rest ↦ some n ];
}

-- A plugin whose first call sets a value and traps, and whose later calls do nothing.
abbrev trapping : ℤ × ℤ → Store ℕ → (String ⊎ ℤ) × Store ℕ
trapping args s =
    if nat_eq s.inside 1
    then (inl "unreachable", record { inside = 2; result_buffer = 7 ∷ [] })
    else (inr (pos 0), s)

abbrev exported : Instance ℕ
exported = record {
  hook = λ h. some (inr trapping);
  alloc = some (inr (λ len s. (inr (pos 16), record s { inside = s.inside + 1 })));
  dealloc = none;
  write = λ ptr bytes s. (inr tt, s);
}

abbrev plugin : WasmPlugin ℕ
plugin = record {
  info = default_info;
  path = "plugin.wasm";
  enabled = true;
  store = record { inside = 0; result_buffer = [] };
  exports = exported;
}

process_lem_example :
    Outcome numbers event_hook
      (plugin ∷ plugin ∷ [])
      3
      (process numbers event_hook (plugin ∷ plugin ∷ []) 3)
process_lem_example = process_lem numbers event_hook (plugin ∷ plugin ∷ []) 3

abbrev again : Store ℕ
again = record { inside = 3; result_buffer = 7 ∷ [] }

abbrev left : Store ℕ
left = record { inside = 2; result_buffer = 7 ∷ [] }

first-Asked : Asked numbers event_hook plugin trapping 3 plugin.store (inl "unreachable", left)
unfolding alloc_and_write
first-Asked = record {
  bytes = 3 ∷ [];
  ptr = pos 16;
  ready = record { inside = 1; result_buffer = [] };
  same_buffer = refl;
  is_enabled = refl;
  has_hook = refl;
  written = refl;
  placed = refl;
  returned = refl;
}

second-Asked : Asked numbers event_hook plugin trapping 4 left (inr (pos 0), again)
unfolding alloc_and_write
second-Asked = record {
  bytes = 4 ∷ [];
  ptr = pos 16;
  ready = record { inside = 3; result_buffer = 7 ∷ [] };
  same_buffer = refl;
  is_enabled = refl;
  has_hook = refl;
  written = refl;
  placed = refl;
  returned = refl;
}

stale_buffer_example :
    ((process numbers event_hook (plugin ∷ []) 3).0 ≡ continue)
    × ((process numbers event_hook (plugin ∷ []) 3).1 ≡ 3)
    × ((process numbers event_hook (process numbers event_hook (plugin ∷ []) 3).2 4).1 ≡ 7)
stale_buffer_example =
    stale_buffer numbers event_hook plugin trapping 3 4 7 plugin.store left again "unreachable"
      (pos 0) first-Asked second-Asked refl refl refl

guest_bytes_lem_example :
    (0 + 2 ≤ 3
      → (part : List ℕ) × (guest_bytes (some (1 ∷ 2 ∷ 3 ∷ [])) (pos 0) (pos 2) ≡ value part)
        × LiesAt 0 2 (1 ∷ 2 ∷ 3 ∷ []) part)
    × (3 < 0 + 2
        → guest_bytes (some (1 ∷ 2 ∷ 3 ∷ [])) (pos 0) (pos 2) ≡ trap "out of bounds memory access")
    × (ReachesBack 2 0 (1 ∷ 2 ∷ 3 ∷ [])
        → guest_bytes (some (1 ∷ 2 ∷ 3 ∷ [])) (negsuc 0) (pos 2) ≡ panic)
    × (Misses 2 0 (1 ∷ 2 ∷ 3 ∷ [])
        → guest_bytes (some (1 ∷ 2 ∷ 3 ∷ [])) (negsuc 0) (pos 2)
          ≡ trap "out of bounds memory access")
    × (ReachesBack 0 2 (1 ∷ 2 ∷ 3 ∷ [])
        → guest_bytes (some (1 ∷ 2 ∷ 3 ∷ [])) (pos 0) (negsuc 2) ≡ panic)
    × (Misses 0 2 (1 ∷ 2 ∷ 3 ∷ [])
        → guest_bytes (some (1 ∷ 2 ∷ 3 ∷ [])) (pos 0) (negsuc 2)
          ≡ trap "out of bounds memory access")
    × (guest_bytes (some (1 ∷ 2 ∷ 3 ∷ [])) (negsuc 0) (negsuc 2)
        ≡ trap "out of bounds memory access")
guest_bytes_lem_example =
    guest_bytes_lem (1 ∷ 2 ∷ 3 ∷ []) 0 2 (omega arith) (omega arith) (omega arith)
