-- ===== src/Resources/ConfigHash/Hex.antt =====
-- fmt's `%x` of a digest: how long the text is, and that it keeps the digest.
use Prim.Native.String.{count}
use mathlib.Core.Path.{ap₂}
use text.Mathlib.TextLemmas.{length-append, append_inj}
use service_provider_otel_co.Base.{
  ℕ, zero, suc, ◌*◌, ◌/◌, ◌%◌, ◌<◌, ◌≡◌, refl, ap, String, Bool, true, Bool-cases, inl, inr, not,
  ◌&&◌, ◌||◌, List, [], ◌∷◌, All, arith, ltb, text_eq, if◌then◌else◌,
}
use service_provider_otel_co.Kube.Objects.{Bytes}
use service_provider_otel_co.Resources.ConfigHash.{digits, digit_at, hex}

abbrev pub AreBytes : Bytes → Type 0
AreBytes bs = All (λ b. b < 256) bs

abbrev pub length : {A : Type 0} → List A → ℕ
length [] = 0
length (x ∷ xs) = suc (length xs)

-- Where a digit stands in the list.
position : String → List String → ℕ
position d [] = 0
position d (e ∷ es) = if text_eq e d then 0 else suc (position d es)

abbrev is_same : ℕ → ℕ → Bool
is_same m n = not (ltb m n || ltb n m)

-- A test of all numbers below a bound.
abbrev all_below : ℕ → (ℕ → Bool) → Bool
all_below zero p = true
all_below (suc n) p = p n && all_below n p

all_below-at : (n k : ℕ) (p : ℕ → Bool) → all_below n p ≡ true → k < n → p k ≡ true
all_below-at zero k p h lt = absurd (omega arith)
all_below-at (suc n) k p h lt = elim (Bool-cases (ltb k n)) [
  | inl below ↦ all_below-at n k p (ground arith) (ground arith)
  | inr top ↦ let e : k ≡ n = ground arith in rw e (ground arith)
]

abbrev is_digit : ℕ → Bool
is_digit n =
    is_same (count (digit_at n digits)) 1 && is_same (position (digit_at n digits) digits) n

digits_ok : all_below 16 is_digit ≡ true
unfolding digit_at position
digits_ok = refl

digit-facts :
    (n : ℕ) → n < 16 → (count (digit_at n digits) ≡ 1) × (position (digit_at n digits) digits ≡ n)
digit-facts n lt = let h = all_below-at 16 n is_digit digits_ok lt in (ground arith, ground arith)

digit_at-injective : (m n : ℕ) → m < 16 → n < 16 → digit_at m digits ≡ digit_at n digits → m ≡ n
digit_at-injective m n lm ln e =
    let p = ap (λ d. position d digits) e in
    omega (arith, (digit-facts m lm).1, (digit-facts n ln).1)

same_count : (m n : ℕ) → m < 16 → n < 16 → count (digit_at m digits) ≡ count (digit_at n digits)
same_count m n lm ln = omega (arith, (digit-facts m lm).0, (digit-facts n ln).0)

hex-length : (bs : Bytes) → AreBytes bs → count (hex bs) ≡ 2 * length bs
unfolding hex
hex-length [] ok = refl
hex-length (b ∷ bs) ok =
    let lt = ok.0 in
    let high = (digit-facts (b / 16) (omega arith)).0 in
    let low = (digit-facts (b % 16) (omega arith)).0 in
    rw (length-append, length-append) (omega (arith, hex-length bs ok.1))

-- No two digests have the same text.
pub hex-injective : (bs cs : Bytes) → AreBytes bs → AreBytes cs → hex bs ≡ hex cs → bs ≡ cs
unfolding hex
hex-injective [] [] p q e = refl
hex-injective [] (c ∷ cs) p q e =
    let n = ap count e in absurd (omega (arith, hex-length (c ∷ cs) q))
hex-injective (b ∷ bs) [] p q e =
    let n = ap count e in absurd (omega (arith, hex-length (b ∷ bs) p))
hex-injective (b ∷ bs) (c ∷ cs) p q e =
    let (high, rest) = append_inj e (same_count (b / 16) (c / 16) (omega arith) (omega arith)) in
    let (low, more) = append_inj rest (same_count (b % 16) (c % 16) (omega arith) (omega arith)) in
    let d = digit_at-injective (b / 16) (c / 16) (omega arith) (omega arith) high in
    let r = digit_at-injective (b % 16) (c % 16) (omega arith) (omega arith) low in
    let same : b ≡ c = omega arith in ap₂ ◌∷◌ same (hex-injective bs cs p.1 q.1 more)
