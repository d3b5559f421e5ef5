-- ===== src/Plugins.antt =====
-- crates/ferroq-gateway/src/plugin_engine.rs: the plugins, in the order in which they were loaded, and
-- what an event or an API call goes through. What wasmtime does (finding an export, running it, the
-- plugin's memory) is a parameter over the plugin's store, a value of the type `St`.
pub mod Order
pub mod Buffer
pub mod Abi
use ferroq.Prelude.{
  ℕ, String, Bool, true, false, Option, none, some, List, [], ◌∷◌, ◌++◌, ◌⊎◌, inl, inr, is_empty,
  length, map, not, ◌==◌, eq_String, if◌then◌else◌,
}
use ferroq.Prelude.Int.{ℤ, pos, as_i32}
use ferroq.Prelude.Str.{concat}
use ferroq.Core.External.{External}
use ferroq.Core.Config.{PluginConfig}
use ferroq.Core.Plugin.{PluginResult, continue, handled, drop, error, PluginInfo, from_i32}

pub data Hook : Type 0 where
  event_hook api_call_hook : Hook

-- A plugin's store: that of wasmtime, and the buffer that the plugin fills by `ferroq_set_result`.
pub record Store (St : Type 0) : Type 0 where
  pub inside : St
  pub result_buffer : List ℕ

-- An export with its type checked, or the error of that check; and what becomes of a call of it.
abbrev pub Func : Type 0 → Type 0 → Type 0 → Type 0
Func St A B = String ⊎ (A → Store St → (String ⊎ B) × Store St)

-- The exports of a plugin's instance, and a write into its memory, which does nothing if it has none.
pub record Instance (St : Type 0) : Type 0 where
  pub hook : Hook → Option (Func St (ℤ × ℤ) ℤ)
  pub alloc : Option (Func St ℤ ℤ)
  pub dealloc : Option (Func St (ℤ × ℤ) (Unit {0}))
  pub write : ℤ → List ℕ → Store St → (String ⊎ (Unit {0})) × Store St

pub record WasmPlugin (St : Type 0) : Type 0 where
  pub info : PluginInfo
  pub path : String
  pub enabled : Bool
  pub store : Store St
  pub exports : Instance St

-- `serde_json` for the values that a hook is about.
pub record Codec (T : Type 0) : Type 0 where
  pub to_bytes : T → String ⊎ List ℕ
  pub from_slice : List ℕ → Option T

-- The value that a plugin put in place of the one it was given, if it can be read.
abbrev pub modified : {T : Type 0} → Codec T → List ℕ → T → T
modified K buffer value =
    if is_empty buffer
    then value
    else elim (K.from_slice buffer) [ some value' ↦ value' | none ↦ value ]

abbrev pub goes_on : PluginResult → Bool
goes_on continue = true
goes_on (error e) = true
goes_on handled = false
goes_on drop = false

module _ {St : Type 0} where
  abbrev pub write_at : Instance St → List ℕ → (String ⊎ ℤ) × Store St → (String ⊎ ℤ) × Store St
  write_at i bytes (inl e, s) = (inl (concat ("alloc failed: " ∷ e ∷ [])), s)
  write_at i bytes (inr ptr, s) =
      let (result, s') = i.write ptr bytes s in
      (
        elim result [ inl e ↦ inl (concat ("memory write failed: " ∷ e ∷ [])) | inr u ↦ inr ptr ],
        s',
      )

  unfoldable pub alloc_and_write : Instance St → List ℕ → Store St → (String ⊎ ℤ) × Store St
  alloc_and_write i bytes s = elim i.alloc [
    | none ↦ (inl "plugin missing alloc function", s)
    | some (inl e) ↦ (inl (concat ("alloc type mismatch: " ∷ e ∷ [])), s)
    | some (inr alloc) ↦ write_at i bytes (alloc (as_i32 (pos (length bytes))) s)
  ]

  unfoldable pub dealloc : Instance St → ℤ → ℕ → Store St → Store St
  dealloc i ptr len s = elim i.dealloc [
    | none ↦ s
    | some (inl e) ↦ s
    | some (inr func) ↦ (func (ptr, as_i32 (pos len)) s).1
  ]

  module _ {T : Type 0} (K : Codec T) where
    unfoldable pub after_call :
        Instance St → ℤ → ℕ → T → (String ⊎ ℤ) × Store St → PluginResult × T × Store St
    unfolding dealloc from_i32
    after_call i ptr len value (inl e, s) = (error e, value, s)
    after_call i ptr len value (inr code, s) = (
      from_i32 code,
      modified K s.result_buffer value,
      dealloc i ptr len (record s { result_buffer = [] }),
    )

    unfoldable pub after_alloc :
        Instance St
        → Func St (ℤ × ℤ) ℤ
        → ℕ
        → T
        → (String ⊎ ℤ) × Store St
        → PluginResult × T × Store St
    unfolding after_call
    after_alloc i func len value (inl e, s) = (error e, value, s)
    after_alloc i (inl e) len value (inr ptr, s) = (error e, value, s)
    after_alloc i (inr func) len value (inr ptr, s) =
        after_call i ptr len value (func (ptr, as_i32 (pos len)) s)

    unfoldable pub run_bytes :
        Instance St
        → Func St (ℤ × ℤ) ℤ
        → T
        → String ⊎ List ℕ
        → Store St
        → PluginResult × T × Store St
    unfolding alloc_and_write after_alloc
    run_bytes i func value (inl e) s = (error e, value, s)
    run_bytes i func value (inr bytes) s =
        after_alloc i func (length bytes) value (alloc_and_write i bytes s)

    -- The body of `on_event` and `on_api_call`, which differ in the export and the value.
    unfoldable pub run_hook : Hook → WasmPlugin St → T → PluginResult × T × Store St
    unfolding run_bytes
    run_hook h p value =
        if p.enabled
        then elim (p.exports.hook h) [
          | none ↦ (continue, value, p.store)
          | some func ↦ run_bytes p.exports func value (K.to_bytes value) p.store
        ]
        else (continue, value, p.store)

    unfoldable pub on_event : WasmPlugin St → T → PluginResult × T × Store St
    unfolding run_hook
    on_event = run_hook event_hook

    unfoldable pub on_api_call : WasmPlugin St → T → PluginResult × T × Store St
    unfolding run_hook
    on_api_call = run_hook api_call_hook

    -- The body of `process_event` and `process_api_call`.
    unfoldable pub process :
        Hook → List (WasmPlugin St) → T → PluginResult × T × List (WasmPlugin St)
    unfolding run_hook
    process h [] value = (continue, value, [])
    process h (p ∷ plugins) value =
        let (result, value', store) = run_hook h p value in
        let (final, value'', plugins') = process h plugins value' in
        let p' = record p { store = store } in
        if goes_on result then (final, value'', p' ∷ plugins') else (result, value', p' ∷ plugins)

    unfoldable pub process_event :
        List (WasmPlugin St) → T → PluginResult × T × List (WasmPlugin St)
    unfolding process
    process_event = process event_hook

    unfoldable pub process_api_call :
        List (WasmPlugin St) → T → PluginResult × T × List (WasmPlugin St)
    unfolding process
    process_api_call = process api_call_hook

  unfoldable pub set_plugin_enabled :
      String → Bool → List (WasmPlugin St) → Bool × List (WasmPlugin St)
  set_plugin_enabled name enabled [] = (false, [])
  set_plugin_enabled name enabled (p ∷ plugins) =
      let (found, plugins') = set_plugin_enabled name enabled plugins in
      if p.info.name == name
      then (true, record p { enabled = enabled } ∷ plugins)
      else (found, p ∷ plugins')

  unfoldable pub list_plugins : List (WasmPlugin St) → List PluginInfo
  list_plugins = map (λ p. p.info)

  -- `exists` and `load` say which files there are and what `WasmPlugin::load` makes of them.
  unfoldable pub load_plugins :
      {F : External}
      → (String → Bool)
      → (PluginConfig F → String ⊎ WasmPlugin St)
      → List (PluginConfig F)
      → List (WasmPlugin St)
      → List (WasmPlugin St)
  load_plugins exists load [] plugins = plugins
  load_plugins exists load (config ∷ configs) plugins = load_plugins exists load configs (
      if not config.enabled
      then plugins
      else if not (exists config.path)
      then plugins
      else elim (load config) [ inl e ↦ plugins | inr p ↦ plugins ++ p ∷ [] ])
