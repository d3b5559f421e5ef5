-- ===== src/Management/Accounts/Replies.antt =====
-- crates/ferroq-gateway/src/management.rs: the replies to requests about accounts, as those of a
-- set of names.
use ferroq.Prelude.{
  ◌≡◌, refl, sym, ap, ◌∙◌, String, Bool, ◌&&◌, ◌||◌, not, Option, some, List, [], ◌∷◌, eq_String,
  ◌==◌, Bool-cases, Option-cases, inl, inr, is_some, if◌then◌else◌,
}
use ferroq.Prelude.HashMap
use ferroq.Prelude.HashMap.{HashMap, get-insert, get-remove}
use ferroq.Core.External.{External}
use ferroq.Core.Config.{BackendConfig}
use ferroq.Core.Error.{Result, Result-cases, ok, err, error_text}
use ferroq.Core.Adapter.{BackendAdapter}
use ferroq.AdapterManager.{
  AdapterManager, add_adapter, create, finish, has, already_exists, not_found,
}
use ferroq.AdapterManager.Names.{
  again, has-remove, removed, remove_there, remove_missing, reconnect_there, reconnect_missing,
  prepare_taken, prepare_free, added-has,
}
use ferroq.Management.Accounts.{
  AccountReply, failed, done_text, handle_add_adapter, handle_remove_adapter,
  handle_reconnect_adapter, reply_to,
}

pub data AccountRequest : Type 0 where
  add_request : String → BackendConfig → AccountRequest
  remove_request reconnect_request : String → AccountRequest

module _ {F : External} {W : Type 0} where
  module _ (lagrange : String → BackendConfig → BackendAdapter F W)
      (official : String → BackendConfig → Result (BackendAdapter F W)) where
    abbrev pub handle :
        AccountRequest
        → Option (AdapterManager F W)
        → W
        → AccountReply × Option (AdapterManager F W) × W
    unfolding handle_add_adapter handle_remove_adapter handle_reconnect_adapter
    handle (add_request name backend) m w = handle_add_adapter lagrange official m name backend w
    handle (remove_request name) m w = handle_remove_adapter m name w
    handle (reconnect_request name) m w = handle_reconnect_adapter m name w

    -- The replies to requests that come one after the other.
    abbrev pub replies : List AccountRequest → Option (AdapterManager F W) → W → List AccountReply
    replies [] m w = []
    replies (r ∷ requests) m w =
        (handle r m w).0 ∷ replies requests (handle r m w).1 (handle r m w).2

    -- What a set of names would answer, and what becomes of it.
    abbrev pub answer_of : (String → Bool) → AccountRequest → AccountReply × (String → Bool)
    answer_of names (add_request name backend) =
        if names name
        then (failed 2 (error_text (already_exists name)), names)
        else elim (create lagrange official name backend) [
          | ok a ↦ (done_text "added" name, λ n. (name == n) || names n)
          | err e ↦ (failed 2 (error_text e), names)
        ]
    answer_of names (remove_request name) =
        if names name
        then (done_text "removed" name, λ n. not (name == n) && names n)
        else (failed 2 (error_text (not_found name)), names)
    answer_of names (reconnect_request name) =
        if names name
        then (done_text "reconnected" name, names)
        else (failed 2 (error_text (not_found name)), names)

    abbrev pub answers : (String → Bool) → List AccountRequest → List AccountReply
    answers names [] = []
    answers names (r ∷ requests) = (answer_of names r).0 ∷ answers (answer_of names r).1 requests

    -- The manager answers as the set of its names does, and its names are those of the set again.
    abbrev Follows :
        (String → Bool) → AccountRequest → AccountReply × Option (AdapterManager F W) × W → Type 0
    Follows names r result =
        (result.0 ≡ (answer_of names r).0)
        × ((m : AdapterManager F W) × (result.1 ≡ some m)
            × ((n : String) → (answer_of names r).1 n ≡ has m n))

    answer_of-Follows :
        (names : String → Bool) (r : AccountRequest) {names' : String → Bool} {reply : AccountReply}
        {m : AdapterManager F W} {w : W} {result : AccountReply × Option (AdapterManager F W) × W}
        → result ≡ (reply, some m, w)
        → answer_of names r ≡ (reply, names')
        → ((n : String) → names' n ≡ has m n)
        → Follows names r result
    answer_of-Follows names r {m} e a h = (
      ap (λ x. x.0) e ∙ sym (ap (λ x. x.0) a),
      (m, ap (λ x. x.1) e, λ n. ap (λ x. x.1 n) a ∙ h n),
    )

    add-Follows :
        (names : String → Bool) (name : String) (backend : BackendConfig) (m : AdapterManager F W)
        (w : W)
        → ((n : String) → names n ≡ has m n)
        → Follows names (add_request name backend) (handle (add_request name backend) (some m) w)
    unfolding handle_add_adapter add_adapter handle
    add-Follows names name backend m w same =
        let reply = λ (p : Result (BackendAdapter F W)).
          reply_to {F = F} {W = W} "added" name (finish lagrange official m name w p) in
        elim (Bool-cases (has m name)) [
          | inl there ↦
              answer_of-Follows names (add_request name backend)
                (ap reply (prepare_taken lagrange official m name backend there))
                (rw (same name ∙ there) refl) same
          | inr free ↦ elim (Result-cases (create lagrange official name backend)) [
            | inl (a, e) ↦
                answer_of-Follows names (add_request name backend)
                  (ap reply (prepare_free lagrange official m name backend free ∙ e))
                  (rw (same name ∙ free, e) refl)
                  (added-has lagrange official names m name a w same)
            | inr (e', e) ↦
                answer_of-Follows names (add_request name backend)
                  (ap reply (prepare_free lagrange official m name backend free ∙ e))
                  (rw (same name ∙ free, e) refl) same
          ]
        ]

    remove-Follows :
        (names : String → Bool) (name : String) (m : AdapterManager F W) (w : W)
        → ((n : String) → names n ≡ has m n)
        → Follows names (remove_request name) (handle (remove_request name) (some m) w)
    unfolding removed handle_remove_adapter has HashMap.contains_key handle
    remove-Follows names name m w same = elim (Option-cases (HashMap.get m.live name)) [
      | inl e ↦
          answer_of-Follows names (remove_request name)
            (ap (reply_to {F = F} {W = W} "removed" name) (remove_missing m name w e))
            (rw (same name ∙ ap is_some e) refl) same
      | inr (entry, e) ↦
          answer_of-Follows names (remove_request name)
            (ap (reply_to {F = F} {W = W} "removed" name) (remove_there m name entry w e))
            (rw (same name ∙ ap is_some e) refl)
            (λ n. ap (λ (b : Bool). not (name == n) && b) (same n) ∙ has-remove m.live name n)
    ]

    reconnect-Follows :
        (names : String → Bool) (name : String) (m : AdapterManager F W) (w : W)
        → ((n : String) → names n ≡ has m n)
        → Follows names (reconnect_request name) (handle (reconnect_request name) (some m) w)
    unfolding handle_reconnect_adapter has HashMap.contains_key handle
    reconnect-Follows names name m w same = elim (Option-cases (HashMap.get m.live name)) [
      | inl e ↦
          answer_of-Follows names (reconnect_request name)
            (ap (reply_to {F = F} {W = W} "reconnected" name) (reconnect_missing m name w e))
            (rw (same name ∙ ap is_some e) refl) same
      | inr (entry, e) ↦
          answer_of-Follows names (reconnect_request name)
            (ap (reply_to {F = F} {W = W} "reconnected" name) (reconnect_there m name entry w e))
            (rw (same name ∙ ap is_some e) refl)
            (λ n. same n ∙ again m name n entry.adapter (ap is_some e))
    ]

    handle-Follows :
        (names : String → Bool) (r : AccountRequest) (m : AdapterManager F W) (w : W)
        → ((n : String) → names n ≡ has m n)
        → Follows names r (handle r (some m) w)
    handle-Follows names (add_request name backend) m w same =
        add-Follows names name backend m w same
    handle-Follows names (remove_request name) m w same = remove-Follows names name m w same
    handle-Follows names (reconnect_request name) m w same = reconnect-Follows names name m w same

    replies_from :
        (names : String → Bool) (requests : List AccountRequest) (m : AdapterManager F W) (w : W)
        → ((n : String) → names n ≡ has m n)
        → replies requests (some m) w ≡ answers names requests
    replies_from names [] m w same = refl
    replies_from names (r ∷ requests) m w same =
        let (same_reply, (m', left, same')) = handle-Follows names r m w same in
        rw (same_reply, left)
          (ap (◌∷◌ (answer_of names r).0)
            (replies_from (answer_of names r).1 requests m' (handle r (some m) w).2 same'))

    -- Requests to add, remove and reconnect adapters that come one after the other are answered as
    -- by a set of names, the names of the manager at first: an addition fails if its name is in the
    -- set, or else if its adapter cannot be made, with the error of this; a removal or reconnection
    -- fails if its name is not in the set; all others succeed, whatever becomes of the connections.
    pub replies-answers :
        (requests : List AccountRequest) (m : AdapterManager F W) (w : W)
        → replies requests (some m) w ≡ answers (has m) requests
    replies-answers requests m w = replies_from (has m) requests m w (λ n. refl)
