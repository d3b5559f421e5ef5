-- ===== src/Plugins/Abi.antt =====
-- crates/ferroq-gateway/src/plugin_engine.rs: the host functions that a plugin calls with a pointer and a
-- length into its memory, as the release build computes them, and the codes of results.
use mathlib.Core.Path.{subst, ap₂}
use ferroq.Prelude.{
  ℕ, suc, ◌+◌, ◌-◌, ◌%◌, ◌^◌, ◌≤◌, ◌<◌, ◌≡◌, refl, ap, ◌⊎◌, inl, inr, String, Option, none, some,
  List, [], ◌∷◌, ◌++◌, length, ltb, if◌then◌else◌, arith,
}
use ferroq.Prelude.Int.{ℤ, pos, negsuc, as_u64}

abbrev pub drop_first : ℕ → List ℕ → List ℕ
drop_first n [] = []
drop_first n (b ∷ bytes) = elim n [ ℕ.zero ↦ b ∷ bytes | ℕ.suc m ↦ drop_first m bytes ]

abbrev pub take : ℕ → List ℕ → List ℕ
take n [] = []
take n (b ∷ bytes) = elim n [ ℕ.zero ↦ [] | ℕ.suc m ↦ b ∷ take m bytes ]

-- What comes of a host function: a trap in the plugin, a panic of the gateway, or a value.
pub data Outcome (A : Type 0) : Type 0 where
  trap : String → Outcome A
  panic : Outcome A
  value : A → Outcome A

-- `data[start..end]`
abbrev slice : ℕ → ℕ → List ℕ → Outcome (List ℕ)
slice start stop bytes =
    if ltb stop start then panic else value (take (stop - start) (drop_first start bytes))

abbrev checked_slice : ℕ → ℕ → List ℕ → Outcome (List ℕ)
checked_slice start stop bytes =
    if ltb (length bytes) stop then trap "out of bounds memory access" else slice start stop bytes

-- The bytes that `ferroq_set_result` puts into the buffer and `ferroq_log` prints. The first argument is
-- the plugin's memory, if it exports one.
unfoldable pub guest_bytes : Option (List ℕ) → ℤ → ℤ → Outcome (List ℕ)
unfolding as_u64
guest_bytes memory ptr len = elim memory [
  | none ↦ trap "memory not initialized"
  | some bytes ↦ checked_slice (as_u64 ptr) ((as_u64 ptr + as_u64 len) % 2 ^ 64) bytes
]

-- A part of a memory, behind so many of its bytes.
abbrev pub LiesAt : ℕ → ℕ → List ℕ → List ℕ → Type 0
LiesAt start count bytes part =
    (before : List ℕ) × (after : List ℕ) × (bytes ≡ before ++ (part ++ after))
    × (length before ≡ start)
    × (length part ≡ count)

taken :
    (n : ℕ) (bytes : List ℕ)
    → n ≤ length bytes
    → (after : List ℕ) × (bytes ≡ take n bytes ++ after) × (length (take n bytes) ≡ n)
taken ℕ.zero [] h = ([], refl, refl)
taken ℕ.zero (b ∷ bytes) h = (b ∷ bytes, refl, refl)
taken (ℕ.suc n) [] h = absurd (omega arith)
taken (ℕ.suc n) (b ∷ bytes) h =
    let (after, e, counted) = taken n bytes (omega arith) in (after, ap (◌∷◌ b) e, ap suc counted)

taken_at_start : (n : ℕ) (bytes : List ℕ) → n ≤ length bytes → LiesAt 0 n bytes (take n bytes)
taken_at_start n bytes h =
    let (after, e, counted) = taken n bytes h in ([], after, e, refl, counted)

sliced :
    (a b : ℕ) (bytes : List ℕ)
    → a + b ≤ length bytes
    → LiesAt a b bytes (take b (drop_first a bytes))
sliced ℕ.zero b [] h = taken_at_start b [] (omega arith)
sliced ℕ.zero b (c ∷ bytes) h = taken_at_start b (c ∷ bytes) (omega arith)
sliced (ℕ.suc a) b [] h = absurd (omega arith)
sliced (ℕ.suc a) b (c ∷ bytes) h =
    let (before, after, e, skipped, counted) = sliced a b bytes (omega arith) in
    (c ∷ before, after, ap (◌∷◌ c) e, ap suc skipped, counted)

pair : {a b c d : ℕ} → a ≡ c → b ≡ d → ◌≡◌ {A = ℕ × ℕ} (a, b) (c, d)
pair p q = ap₂ (λ x y. (x, y)) p q

inside_value :
    (a b : ℕ) (bytes : List ℕ)
    → a + b ≤ length bytes
    → (part : List ℕ) × (checked_slice a (a + b) bytes ≡ value part) × LiesAt a b bytes part
inside_value a b bytes h = (
  take (a + b - a) (drop_first a bytes),
  ground arith,
  subst (λ n. LiesAt a b bytes (take n (drop_first a bytes))) (omega arith) (sliced a b bytes h),
)

outside_trap :
    (start stop : ℕ) (bytes : List ℕ)
    → length bytes < stop
    → checked_slice start stop bytes ≡ trap "out of bounds memory access"
outside_trap start stop bytes h = ground arith

backwards_panic :
    (start stop : ℕ) (bytes : List ℕ)
    → stop ≤ length bytes
    → stop < start
    → checked_slice start stop bytes ≡ panic
backwards_panic start stop bytes h k = ground arith

-- The sum of a pointer and a length, one of which is negative, is an address within the memory or
-- its end.
abbrev pub ReachesBack : ℕ → ℕ → List ℕ → Type 0
ReachesBack above below bytes = (below < above) × (above ≤ length bytes + suc below)

-- The sum is negative or above the size of the memory.
abbrev pub Misses : ℕ → ℕ → List ℕ → Type 0
Misses above below bytes = (above ≤ below) ⊎ (length bytes + suc below < above)

missed :
    (above below : ℕ) (bytes : List ℕ)
    → above < 2 ^ 31
    → below < 2 ^ 31
    → length bytes ≤ 2 ^ 32
    → Misses above below bytes
    → length bytes < (2 ^ 64 - 1 - below + above) % 2 ^ 64
missed above below bytes ha hb small (inl h) = omega arith
missed above below bytes ha hb small (inr h) = omega arith

-- In a memory of at most 4 GiB, a pointer and a length, numbers of 32 bits, that are not negative
-- give the bytes of the memory at the pointer, as many as the length says, if they lie within the
-- memory, and a trap in the plugin otherwise. If one of the two is negative and the other is not,
-- the gateway panics if their sum is not negative and not above the size of the memory; in all
-- other cases the plugin traps.
pub guest_bytes_lem :
    (bytes : List ℕ) (a b : ℕ)
    → a < 2 ^ 31
    → b < 2 ^ 31
    → length bytes ≤ 2 ^ 32
    → (a + b ≤ length bytes
        → (part : List ℕ) × (guest_bytes (some bytes) (pos a) (pos b) ≡ value part)
          × LiesAt a b bytes part)
      × (length bytes < a + b
          → guest_bytes (some bytes) (pos a) (pos b) ≡ trap "out of bounds memory access")
      × (ReachesBack b a bytes → guest_bytes (some bytes) (negsuc a) (pos b) ≡ panic)
      × (Misses b a bytes
          → guest_bytes (some bytes) (negsuc a) (pos b) ≡ trap "out of bounds memory access")
      × (ReachesBack a b bytes → guest_bytes (some bytes) (pos a) (negsuc b) ≡ panic)
      × (Misses a b bytes
          → guest_bytes (some bytes) (pos a) (negsuc b) ≡ trap "out of bounds memory access")
      × (guest_bytes (some bytes) (negsuc a) (negsuc b) ≡ trap "out of bounds memory access")
unfolding guest_bytes as_u64
guest_bytes_lem bytes a b ha hb small = (
  λ inside.
      subst
        (λ s. (part : List ℕ) × (checked_slice s.0 s.1 bytes ≡ value part) × LiesAt a b bytes part)
        (pair (omega arith) (omega arith)) (inside_value a b bytes inside),
  λ outside. outside_trap (a % 2 ^ 64) ((a % 2 ^ 64 + b % 2 ^ 64) % 2 ^ 64) bytes (omega arith),
  λ r.
      backwards_panic (2 ^ 64 - 1 - a % 2 ^ 64) ((2 ^ 64 - 1 - a % 2 ^ 64 + b % 2 ^ 64) % 2 ^ 64)
        bytes (omega (arith, r.0, r.1)) (omega (arith, r.0, r.1)),
  λ out.
      outside_trap (2 ^ 64 - 1 - a % 2 ^ 64) ((2 ^ 64 - 1 - a % 2 ^ 64 + b % 2 ^ 64) % 2 ^ 64) bytes
        (omega (arith, missed b a bytes hb ha small out)),
  λ r.
      backwards_panic (a % 2 ^ 64) ((a % 2 ^ 64 + (2 ^ 64 - 1 - b % 2 ^ 64)) % 2 ^ 64) bytes
        (omega (arith, r.0, r.1)) (omega (arith, r.0, r.1)),
  λ out.
      outside_trap (a % 2 ^ 64) ((a % 2 ^ 64 + (2 ^ 64 - 1 - b % 2 ^ 64)) % 2 ^ 64) bytes
        (omega (arith, missed a b bytes ha hb small out)),
  outside_trap (2 ^ 64 - 1 - a % 2 ^ 64)
      ((2 ^ 64 - 1 - a % 2 ^ 64 + (2 ^ 64 - 1 - b % 2 ^ 64)) % 2 ^ 64) bytes (omega arith),
)
