-- ===== src/Common/Decimal.antt =====
-- strconv.Itoa and the %d of package fmt, on numbers that are not negative.
use Prim.Native.Nat.{ℕ, zero, suc, ◌+◌, ◌-◌, ◌*◌, ◌/◌, ◌%◌, ◌<◌}
use mathlib.Core.Path.{◌≡◌, refl, ap, sym, ◌∙◌}
use mathlib.Core.Bool.{Bool, true, false, ◌&&◌}
use mathlib.Core.Logic.{inl, inr}
use mathlib.Core.List.{[], ◌∷◌, ◌++◌}
use native.Mathlib.Omega.{arith}
use casa_os_user_service.Common.Tests.{ltb, leb, if◌then◌else◌, Bool-cases}
use casa_os_user_service.Common.Lists.{All}
use casa_os_user_service.Common.Text.{Text, Lacks}

-- The decimal digits of a number in front of a text. The fuel counts the digits.
digits_onto : ℕ → ℕ → Text → Text
digits_onto zero n t = t
digits_onto (suc f) n t =
    let rest = digits_onto f (n / 10) ((48 + n % 10) ∷ t) in if ltb n 10 then (48 + n) ∷ t else rest

unfoldable pub itoa : ℕ → Text
unfolding digits_onto
itoa n = digits_onto (suc n) n []

abbrev pub is_digit : ℕ → Bool
is_digit c = leb 48 c && leb c 57

-- Reads digits as far as they go.
unfoldable pub scan_from : ℕ → Text → ℕ × Text
scan_from a [] = (a, [])
scan_from a (c ∷ s) =
    let rest = scan_from (10 * a + (c - 48)) s in if is_digit c then rest else (a, c ∷ s)

digits_onto-append : (f n : ℕ) (t r : Text) → digits_onto f n t ++ r ≡ digits_onto f n (t ++ r)
unfolding digits_onto
digits_onto-append zero n t r = refl
digits_onto-append (suc f) n t r = elim (Bool-cases (ltb n 10)) [
  | inl e ↦ rw e refl
  | inr e ↦ rw e (digits_onto-append f (n / 10) _ r)
]

scan_from-digits_onto :
    (f n : ℕ) (t : Text) → n < f → scan_from 0 (digits_onto f n t) ≡ scan_from n t
unfolding digits_onto scan_from
scan_from-digits_onto zero n t h = elim h [ ]
scan_from-digits_onto (suc f) n t h = elim (Bool-cases (ltb n 10)) [
  | inl e ↦ rw e (ground arith)
  | inr e ↦
      rw (e, scan_from-digits_onto f (n / 10) ((48 + n % 10) ∷ t) (ground arith)) (ground arith)
]

-- A printed number reads back, whatever follows it.
pub scan_from-itoa : (n : ℕ) (r : Text) → scan_from 0 (itoa n ++ r) ≡ scan_from n r
unfolding itoa
scan_from-itoa n r = rw digits_onto-append (scan_from-digits_onto (suc n) n r (omega arith))

-- Different numbers print differently.
pub itoa_injective : (m n : ℕ) → itoa m ≡ itoa n → m ≡ n
unfolding scan_from
itoa_injective m n e =
    ap (λ (p : ℕ × Text). p.0) (sym (read m) ∙ ap (λ s. scan_from 0 (s ++ [])) e ∙ read n)
  where
    read : (k : ℕ) → scan_from 0 (itoa k ++ []) ≡ (k, [])
    read k = scan_from-itoa k []

digits_onto-digits :
    (f n : ℕ) (t : Text)
    → All (λ c. is_digit c ≡ true) t
    → All (λ c. is_digit c ≡ true) (digits_onto f n t)
unfolding digits_onto
digits_onto-digits zero n t h = h
digits_onto-digits (suc f) n t h = elim (Bool-cases (ltb n 10)) [
  | inl e ↦ rw e (ground arith, h)
  | inr e ↦ rw e (digits_onto-digits f (n / 10) _ (ground arith, h))
]

-- A printed number is digits.
pub itoa-digits : (n : ℕ) → All (λ c. is_digit c ≡ true) (itoa n)
unfolding itoa
itoa-digits n = digits_onto-digits (suc n) n [] tt

pub Lacks-digits :
    (c : ℕ) (s : Text) → is_digit c ≡ false → All (λ x. is_digit x ≡ true) s → Lacks c s
Lacks-digits c [] h d = tt
Lacks-digits c (x ∷ s) h (hx, d) = (ground arith, Lacks-digits c s h d)

pub Lacks-append : (c : ℕ) (s t : Text) → Lacks c s → Lacks c t → Lacks c (s ++ t)
Lacks-append c [] t hs ht = ht
Lacks-append c (x ∷ s) t (hx, hs) ht = (hx, Lacks-append c s t hs ht)

digits_onto-cons :
    (f n : ℕ) (t : Text)
    → (d : ℕ) × (ds : Text) × (digits_onto (suc f) n t ≡ d ∷ ds) × (is_digit d ≡ true)
unfolding digits_onto
digits_onto-cons zero n t = elim (Bool-cases (ltb n 10)) [
  | inl e ↦ (48 + n, t, rw e refl, ground arith)
  | inr e ↦ (48 + n % 10, t, rw e refl, ground arith)
]
digits_onto-cons (suc f) n t = elim (Bool-cases (ltb n 10)) [
  | inl e ↦ (48 + n, t, rw e refl, ground arith)
  | inr e ↦
      let (d, ds, p, q) = digits_onto-cons f (n / 10) ((48 + n % 10) ∷ t) in (d, ds, rw e p, q)
]

-- A printed number begins with a digit.
pub itoa-cons : (n : ℕ) → (d : ℕ) × (ds : Text) × (itoa n ≡ d ∷ ds) × (is_digit d ≡ true)
unfolding itoa
itoa-cons n = digits_onto-cons n n []
