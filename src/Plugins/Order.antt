-- ===== src/Plugins/Order.antt =====
-- crates/ferroq-gateway/src/plugin_engine.rs, `process_event` and `process_api_call`: which plugins see
-- an event or a call, in which order, and what is left of it.
use mathlib.Core.Path.{subst}
use ferroq.Prelude.{
  ◌≡◌, refl, sym, ap, true, false, List, [], ◌∷◌, ◌++◌, inl, inr, Bool-cases, eq_String,
}
use ferroq.Core.Plugin.{PluginResult, continue, handled, drop, error}
use ferroq.Plugins.{Hook, WasmPlugin, Codec, run_hook, process, goes_on}

module _ {St T : Type 0} (K : Codec T) (h : Hook) where
  -- The plugin once it has run for this value.
  abbrev pub ran : WasmPlugin St → T → WasmPlugin St
  ran p value = record p { store = (run_hook K h p value).2 }

  -- Each of these plugins in turn was given what the one before it left, and let it go on.
  pub data Passed : List (WasmPlugin St) → T → List (WasmPlugin St) → T → Type 0 where
    nobody : {value : T} → Passed [] value [] value
    passed :
        {p : WasmPlugin St} {plugins plugins' : List (WasmPlugin St)} {value value' : T}
        → goes_on (run_hook K h p value).0 ≡ true
        → Passed plugins (run_hook K h p value).1 plugins' value'
        → Passed (p ∷ plugins) value (ran p value ∷ plugins') value'

  -- One of these plugins stopped it with this result, and those behind it were not run.
  abbrev pub Stopped : PluginResult → List (WasmPlugin St) → T → T → List (WasmPlugin St) → Type 0
  Stopped result plugins value value' plugins' =
      (before : List (WasmPlugin St)) × (p : WasmPlugin St) × (rest : List (WasmPlugin St))
      × (before' : List (WasmPlugin St)) × (given : T) × (plugins ≡ before ++ p ∷ rest)
      × Passed before value before' given
      × ((run_hook K h p given).0 ≡ result)
      × (value' ≡ (run_hook K h p given).1)
      × (plugins' ≡ before' ++ ran p given ∷ rest)

  abbrev pub Outcome : List (WasmPlugin St) → T → PluginResult × T × List (WasmPlugin St) → Type 0
  Outcome plugins value (continue, value', plugins') = Passed plugins value plugins' value'
  Outcome plugins value (handled, value', plugins') = Stopped handled plugins value value' plugins'
  Outcome plugins value (drop, value', plugins') = Stopped drop plugins value value' plugins'
  Outcome plugins value (error e, value', plugins') = ⊥

  Stopped-later :
      (r : PluginResult) (p : WasmPlugin St) (plugins : List (WasmPlugin St)) (value value' : T)
      (plugins' : List (WasmPlugin St))
      → goes_on (run_hook K h p value).0 ≡ true
      → Stopped r plugins (run_hook K h p value).1 value' plugins'
      → Stopped r (p ∷ plugins) value value' (ran p value ∷ plugins')
  Stopped-later r p plugins value value' plugins' on
        (before, q, rest, before', given, split, pass, result, left, after) =
      (
        p ∷ before,
        q,
        rest,
        ran p value ∷ before',
        given,
        ap (◌∷◌ p) split,
        passed on pass,
        result,
        left,
        ap (◌∷◌ (ran p value)) after,
      )

  Outcome-later :
      (p : WasmPlugin St) (plugins : List (WasmPlugin St)) (value : T)
      (r : PluginResult × T × List (WasmPlugin St))
      → goes_on (run_hook K h p value).0 ≡ true
      → Outcome plugins (run_hook K h p value).1 r
      → Outcome (p ∷ plugins) value (r.0, r.1, ran p value ∷ r.2)
  Outcome-later p plugins value (continue, value', plugins') on o = passed on o
  Outcome-later p plugins value (handled, value', plugins') on o =
      Stopped-later handled p plugins value value' plugins' on o
  Outcome-later p plugins value (drop, value', plugins') on o =
      Stopped-later drop p plugins value value' plugins' on o
  Outcome-later p plugins value (error e, value', plugins') on o = o

  Outcome-now :
      (p : WasmPlugin St) (plugins : List (WasmPlugin St)) (value : T) (r : PluginResult)
      → (run_hook K h p value).0 ≡ r
      → goes_on r ≡ false
      → Outcome (p ∷ plugins) value (r, (run_hook K h p value).1, ran p value ∷ plugins)
  Outcome-now p plugins value continue e off = cc
  Outcome-now p plugins value (error t) e off = cc
  Outcome-now p plugins value handled e off =
      ([], p, plugins, [], value, refl, nobody, e, refl, refl)
  Outcome-now p plugins value drop e off = ([], p, plugins, [], value, refl, nobody, e, refl, refl)

  process-on :
      (p : WasmPlugin St) (plugins : List (WasmPlugin St)) (value : T)
      → goes_on (run_hook K h p value).0 ≡ true
      → process K h (p ∷ plugins) value ≡ (
        (process K h plugins (run_hook K h p value).1).0,
        (process K h plugins (run_hook K h p value).1).1,
        ran p value ∷ (process K h plugins (run_hook K h p value).1).2,
      )
  unfolding process
  process-on p plugins value on = rw (on, process) refl

  process-off :
      (p : WasmPlugin St) (plugins : List (WasmPlugin St)) (value : T)
      → goes_on (run_hook K h p value).0 ≡ false
      → process K h (p ∷ plugins) value
        ≡ ((run_hook K h p value).0, (run_hook K h p value).1, ran p value ∷ plugins)
  unfolding process
  process-off p plugins value off = rw (off, process) refl

  -- An event or a call goes through the plugins in their order, each of which is given what the one
  -- before it left, past every error, until one of them handles or drops it: this is then the
  -- result, and the plugins behind it are not run. The result is never an error.
  pub process_lem :
      (plugins : List (WasmPlugin St)) (value : T)
      → Outcome plugins value (process K h plugins value)
  unfolding process
  process_lem [] value = nobody
  process_lem (p ∷ plugins) value = elim (Bool-cases (goes_on (run_hook K h p value).0)) [
    | inl on ↦ subst (Outcome (p ∷ plugins) value) (sym (process-on p plugins value on)) (
        Outcome-later p plugins value (process K h plugins (run_hook K h p value).1) on
          (process_lem plugins (run_hook K h p value).1))
    | inr off ↦
        subst (Outcome (p ∷ plugins) value) (sym (process-off p plugins value off))
          (Outcome-now p plugins value (run_hook K h p value).0 refl off)
  ]
