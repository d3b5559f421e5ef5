-- ===== src/Dedup/Fingerprint/Message.antt =====
-- Fingerprints of messages: no two messages share one unless they are the same message of the
-- same account.
use ferroq.Prelude.{ℕ, ◌^◌, ◌*◌, ◌+◌, ◌<◌, ◌≡◌, arith}
use ferroq.Prelude.Int.{ℤ, IsI64, as_u64, as_u64-lt, as_u64_inj}
use ferroq.Core.External.{External}
use ferroq.Core.Event.{MessageEvent, message}
use ferroq.Dedup.Fingerprint.{Json, Hasher, fingerprint}

join_halves_inj :
    (a b c d : ℕ) → b < 2 ^ 64 → d < 2 ^ 64 → a * 2 ^ 64 + b ≡ c * 2 ^ 64 + d → (a ≡ c) × (b ≡ d)
join_halves_inj a b c d hb hd e = omega arith

module _ {F : External} (H : Hasher) (view : F.Value → Json) (timestamp : F.DateTime → ℤ) where
  -- Two messages whose ids are `i64` values have the same fingerprint only if both the account
  -- and the message id agree: no message is dropped for the sake of another.
  pub fingerprint-message_inj :
      (a b : MessageEvent F)
      → IsI64 a.self_id
      → IsI64 a.message_id
      → IsI64 b.self_id
      → IsI64 b.message_id
      → fingerprint H view timestamp (message a) ≡ fingerprint H view timestamp (message b)
      → (a.self_id ≡ b.self_id) × (a.message_id ≡ b.message_id)
  unfolding fingerprint
  fingerprint-message_inj a b ha ma hb mb e =
      let halves =
        join_halves_inj (as_u64 a.self_id) (as_u64 a.message_id) (as_u64 b.self_id)
          (as_u64 b.message_id) (as_u64-lt a.message_id) (as_u64-lt b.message_id) e in
      (
        as_u64_inj a.self_id b.self_id ha hb halves.0,
        as_u64_inj a.message_id b.message_id ma mb halves.1,
      )
