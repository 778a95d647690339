-- ===== src/Totp/Normal.antt =====
-- A recovery code as it is shown, with a hyphen, is normalised to the code that was hashed.
use mathlib.Core.List.{reverse, reverse-cons, reverse-reverse}
use casa_os_user_service.Common.{
  ℕ, zero, suc, ◌≡◌, refl, ap, sym, Bool, true, false, ◌&&◌, ◌||◌, [], ◌∷◌, ◌++◌, All, take, drop,
  subst, leb, arith,
}
use casa_os_user_service.Common.Text.{Text}
use casa_os_user_service.Totp.{
  is_base32, is_space, trim_left, trim_space, to_lower, drop_hyphens, normalize,
}

-- a-z, 2-7
abbrev pub is_plain : ℕ → Bool
is_plain c = leb b'a' c && leb c b'z' || leb b'2' c && leb c b'7'

abbrev pub IsPlain : Text → Type 0
IsPlain = All (λ c. is_plain c ≡ true)

All-append {ℓ} : (P : ℕ → Type ℓ) (s t : Text) → All P s → All P t → All P (s ++ t)
All-append P [] t hs ht = ht
All-append P (c ∷ s) t (h, hs) ht = (h, All-append P s t hs ht)

All-reverse {ℓ} : (P : ℕ → Type ℓ) (s : Text) → All P s → All P (reverse s)
All-reverse P [] h = h
All-reverse P (c ∷ s) (h, hs) =
    subst (All P) (sym (reverse-cons c s))
      (All-append P (reverse s) (c ∷ []) (All-reverse P s hs) (h, tt))

pub All-take {ℓ} : (P : ℕ → Type ℓ) (n : ℕ) (s : Text) → All P s → All P (take n s)
All-take P zero s h = tt
All-take P (suc n) [] h = tt
All-take P (suc n) (c ∷ s) (h, hs) = (h, All-take P n s hs)

All-drop {ℓ} : (P : ℕ → Type ℓ) (n : ℕ) (s : Text) → All P s → All P (drop n s)
All-drop P zero s h = h
All-drop P (suc n) [] h = tt
All-drop P (suc n) (c ∷ s) (h, hs) = All-drop P n s hs

take-append-drop : (n : ℕ) (s : Text) → take n s ++ drop n s ≡ s
take-append-drop zero s = refl
take-append-drop (suc n) [] = refl
take-append-drop (suc n) (c ∷ s) = ap (λ t. c ∷ t) (take-append-drop n s)

abbrev Visible : Text → Type 0
Visible = All (λ c. is_space c ≡ false)

trim_left-Visible : (s : Text) → Visible s → trim_left s ≡ s
unfolding trim_left
trim_left-Visible [] h = refl
trim_left-Visible (c ∷ s) (h, hs) = rw h

trim_space-Visible : (s : Text) → Visible s → trim_space s ≡ s
unfolding trim_space
trim_space-Visible s h =
    rw (trim_left-Visible s h, trim_left-Visible (reverse s) (All-reverse _ s h))
      (reverse-reverse s)

Visible-plain : (s : Text) → IsPlain s → Visible s
Visible-plain [] h = tt
Visible-plain (c ∷ s) (h, hs) = (ground arith, Visible-plain s hs)

drop_hyphens-append : (s t : Text) → drop_hyphens (s ++ t) ≡ drop_hyphens s ++ drop_hyphens t
drop_hyphens-append [] t = refl
drop_hyphens-append (c ∷ s) t = ground (arith, drop_hyphens-append s t)

drop_hyphens-plain : (s : Text) → IsPlain s → drop_hyphens s ≡ s
drop_hyphens-plain [] h = refl
drop_hyphens-plain (c ∷ s) (h, hs) = ground (arith, drop_hyphens-plain s hs)

to_lower-plain : (s : Text) → IsPlain s → to_lower s ≡ s
to_lower-plain [] h = refl
to_lower-plain (c ∷ s) (h, hs) = ground (arith, to_lower-plain s hs)

pub IsPlain-to_lower : (s : Text) → All (λ c. is_base32 c ≡ true) s → IsPlain (to_lower s)
IsPlain-to_lower [] h = tt
IsPlain-to_lower (c ∷ s) (h, hs) = (ground arith, IsPlain-to_lower s hs)

pub normalize-shown : (n : ℕ) (s : Text) → IsPlain s → normalize (take n s ++ b'-' ∷ drop n s) ≡ s
unfolding normalize
normalize-shown n s h =
    let front = All-take _ n s h in
    let back = All-drop _ n s h in
    rw
      (
        trim_space-Visible (take n s ++ b'-' ∷ drop n s)
            (All-append _ (take n s) _ (Visible-plain _ front) (refl, Visible-plain _ back)),
        drop_hyphens-append (take n s) (b'-' ∷ drop n s),
        drop_hyphens-plain (take n s) front,
        drop_hyphens-plain (drop n s) back,
        take-append-drop n s,
      )
      (to_lower-plain s h)
