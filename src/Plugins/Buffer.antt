-- ===== src/Plugins/Buffer.antt =====
-- crates/ferroq-gateway/src/plugin_engine.rs: the buffer in which a plugin leaves a changed value.
use ferroq.Prelude.{
  ℕ, ◌≡◌, ◌∙◌, ap, String, true, false, Bool-cases, some, List, [], ◌∷◌, refl, ◌⊎◌, inl, inr,
  is_empty, length,
}
use ferroq.Prelude.Int.{ℤ, pos, as_i32}
use ferroq.Core.Plugin.{PluginResult, continue, error, from_i32}
use ferroq.Plugins.{
  Hook, WasmPlugin, Store, Codec, run_hook, run_bytes, after_alloc, after_call, alloc_and_write,
  modified, process, goes_on,
}

module _ {St T : Type 0} (K : Codec T) (h : Hook) (p : WasmPlugin St)
    (func : ℤ × ℤ → Store St → (String ⊎ ℤ) × Store St) where
  -- The plugin, with this store, is asked about this value: memory is allocated and the value is
  -- written there, without a call of `ferroq_set_result`, and then the export of the hook returns
  -- this.
  pub record Asked (value : T) (s : Store St) (r : (String ⊎ ℤ) × Store St) : Type 0 where
    pub bytes : List ℕ
    pub ptr : ℤ
    pub ready : Store St
    pub is_enabled : p.enabled ≡ true
    pub has_hook : p.exports.hook h ≡ some (inr func)
    pub written : K.to_bytes value ≡ inr bytes
    pub placed : alloc_and_write p.exports bytes s ≡ (inr ptr, ready)
    pub same_buffer : ready.result_buffer ≡ s.result_buffer
    pub returned : func (ptr, as_i32 (pos (length bytes))) ready ≡ r

  abbrev pub with_store : Store St → WasmPlugin St
  with_store s = record p { store = s }

  run_hook-Asked :
      (value : T) (s : Store St) (r : (String ⊎ ℤ) × Store St) (a : Asked value s r)
      → run_hook K h (with_store s) value ≡ after_call K p.exports a.ptr (length a.bytes) value r
  unfolding run_hook run_bytes after_alloc
  run_hook-Asked value s r a =
      simp (
        run_hook, run_bytes, after_alloc, a.is_enabled, a.has_hook, a.written, a.placed, a.returned,
      )

  -- What is left of a value behind the only plugin there is.
  alone :
      (value value' : T) (s s' : Store St) (result : PluginResult)
      → run_hook K h (with_store s) value ≡ (result, value', s')
      → ((process K h (with_store s ∷ []) value).1 ≡ value')
        × ((process K h (with_store s ∷ []) value).2 ≡ with_store s' ∷ [])
  unfolding process
  alone value value' s s' result e =
      elim (Bool-cases (goes_on (run_hook K h (with_store s) value).0)) [
        | inl g ↦ rw g (ap (λ r. r.1) e, ap (λ r. with_store r.2 ∷ []) e)
        | inr g ↦ rw g (ap (λ r. r.1) e, ap (λ r. with_store r.2 ∷ []) e)
      ]

  failed_alone :
      (value value' : T) (s s' : Store St) (e : String)
      → run_hook K h (with_store s) value ≡ (error e, value', s')
      → (process K h (with_store s ∷ []) value).0 ≡ continue
  unfolding process
  failed_alone value value' s s' e r = rw (ap (λ x. goes_on x.0) r) refl

  -- When the only plugin sets a value, which can be read, in a call that then fails, the event or
  -- call goes on as it was. The next one for the same hook, in whose call the plugin, its
  -- allocation included, sets no value and does not fail, is replaced by the value set in the
  -- failed call.
  pub stale_buffer :
      (first second old : T) (s s₁ s₂ : Store St) (e : String) (code : ℤ)
      → Asked first s (inl e, s₁)
      → Asked second s₁ (inr code, s₂)
      → is_empty s₁.result_buffer ≡ false
      → K.from_slice s₁.result_buffer ≡ some old
      → s₂.result_buffer ≡ s₁.result_buffer
      → ((process K h (with_store s ∷ []) first).0 ≡ continue)
        × ((process K h (with_store s ∷ []) first).1 ≡ first)
        × ((process K h (process K h (with_store s ∷ []) first).2 second).1 ≡ old)
  unfolding after_call
  stale_buffer first second old s s₁ s₂ e code a b full reads same =
      let fails = run_hook-Asked first s (inl e, s₁) a in
      let goes = run_hook-Asked second s₁ (inr code, s₂) b in
      let (kept, left) = alone first first s s₁ (error e) fails in
      (
        failed_alone first first s s₁ e fails,
        kept,
        ap (λ (plugins : List (WasmPlugin St)). (process K h plugins second).1) left
            ∙ (alone second _ s₁ _ (from_i32 code) goes).0
            ∙ simp (same, full, reads, modified),
      )
