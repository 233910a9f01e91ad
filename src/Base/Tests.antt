-- ===== src/Base/Tests.antt =====
-- Boolean tests on numbers, texts and options, the conditional, and case lemmas.
use Prim.Native.Nat.{ℕ, compare, Ordering}
use Prim.Native.String.{String}
use mathlib.Core.Path.{◌≡◌, refl}
use mathlib.Core.Logic.{◌⊎◌, inl, inr}
use mathlib.Core.Bool.{Bool, true, false, ◌&&◌}
use mathlib.Core.Option.{Option, none, some}
use native.Mathlib.Omega.{arith}
use text.Mathlib.Text.{◌==◌ as text_eq}
use text.Mathlib.TextEquality.{eq_iff}

abbrev pub ltb : ℕ → ℕ → Bool
ltb a b = elim (compare a b) [ Ordering.lt ↦ true | _ ↦ false ]

abbrev pub leb : ℕ → ℕ → Bool
leb a b = elim (compare a b) [ Ordering.gt ↦ false | _ ↦ true ]

infix 50 ◌==◌
abbrev pub ◌==◌ : ℕ → ℕ → Bool
a == b = elim (compare a b) [ Ordering.eq ↦ true | _ ↦ false ]

infix 1 if◌then◌else◌
abbrev pub if◌then◌else◌ {ℓ} : {A : Type ℓ} → Bool → A → A → A
if true then x else y = x
if false then x else y = y

-- Equality of texts stays shut, so that a proof splits on it as on one unknown.
unfoldable pub str_eq : String → String → Bool
str_eq s t = text_eq s t

pub str_eq_sound : (s t : String) → str_eq s t ≡ true → s ≡ t
unfolding str_eq
str_eq_sound s t h = (eq_iff s t).0 h

pub str_eq_complete : (s t : String) → s ≡ t → str_eq s t ≡ true
unfolding str_eq
str_eq_complete s t e = (eq_iff s t).1 e

pub str_eq_refl : (s : String) → str_eq s s ≡ true
str_eq_refl s = str_eq_complete s s refl

pub eqb_sound : (a b : ℕ) → (a == b) ≡ true → a ≡ b
eqb_sound a b h = ground arith

pub eqb_refl : (a : ℕ) → (a == a) ≡ true
eqb_refl a = ground arith

-- `a == b` on values that may be None.
abbrev pub opt_str_eq : Option String → Option String → Bool
opt_str_eq none none = true
opt_str_eq (some a) (some b) = str_eq a b
opt_str_eq (some a) none = false
opt_str_eq none (some b) = false

pub opt_str_eq_sound : (a b : Option String) → opt_str_eq a b ≡ true → a ≡ b
opt_str_eq_sound none none h = refl
opt_str_eq_sound (some a) (some b) h = cc (str_eq_sound a b h)
opt_str_eq_sound (some a) none h = cc
opt_str_eq_sound none (some b) h = cc

pub opt_str_eq_refl : (a : Option String) → opt_str_eq a a ≡ true
opt_str_eq_refl none = refl
opt_str_eq_refl (some a) = str_eq_refl a

abbrev pub is_some {ℓ} : {A : Type ℓ} → Option A → Bool
is_some none = false
is_some (some a) = true

pub Bool-cases : (b : Bool) → (b ≡ true) ⊎ (b ≡ false)
Bool-cases true = inl refl
Bool-cases false = inr refl

pub Option-cases {ℓ} : {A : Type ℓ} (o : Option A) → (o ≡ none) ⊎ ((a : A) × (o ≡ some a))
Option-cases none = inl refl
Option-cases (some a) = inr (a, refl)

pub and-left : (a b : Bool) → (a && b) ≡ true → a ≡ true
and-left true b h = refl
and-left false b h = h

pub and-right : (a b : Bool) → (a && b) ≡ true → b ≡ true
and-right true b h = h
and-right false b h = cc
