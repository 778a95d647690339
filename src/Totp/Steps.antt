-- ===== src/Totp/Steps.antt =====
-- Which steps `verify_totp` accepts.
use mathlib.Core.Option.{some-injective}
use casa_os_user_service.Common.{
  ℕ, ◌/◌, ◌≡◌, refl, ◌⊎◌, inl, inr, Bool, true, false, Option, none, some, [], ◌∷◌, find, arith,
  Bool-cases, &&_true, subst, ap, ◌≢◌,
}
use casa_os_user_service.Common.Text.{Text}
use casa_os_user_service.Common.Int.{ℤ, pos, ltb_ℤ, pred_ℤ, suc_ℤ, to_uint64}
use casa_os_user_service.Totp.{Otp, is_ok, totp_period, accepts, step_or_zero, verify_totp}

-- The step is the current one or a neighbour, it is later than the last one, and the code is
-- valid for it.
pub record IsFresh (o : Otp) (secret code : Text) (last_step : ℤ) (now : ℕ) (step : ℤ)
    : Type 0 where
  pub near :
      (step ≡ pred_ℤ (pos (now / totp_period)))
      ⊎ ((step ≡ pos (now / totp_period)) ⊎ (step ≡ suc_ℤ (pos (now / totp_period))))
  pub valid : o.validate_custom code (to_uint64 step) secret ≡ some true
  pub later : ltb_ℤ last_step step ≡ true

find_three {ℓ} :
    {A : Type ℓ} (p : A → Bool) (a b c x : A)
    → find p (a ∷ b ∷ c ∷ []) ≡ some x
    → ((x ≡ a) ⊎ ((x ≡ b) ⊎ (x ≡ c))) × (p x ≡ true)
find_three {A} p a b c x h = elim (Bool-cases (p a)) [
  | inl e ↦ first a (rw e at h) (inl refl) e
  | inr e ↦ elim (Bool-cases (p b)) [
    | inl e' ↦ first b (rw (e, e') at h) (inr (inl refl)) e'
    | inr e' ↦ elim (Bool-cases (p c)) [
      | inl e'' ↦ first c (rw (e, e', e'') at h) (inr (inr refl)) e''
      | inr e'' ↦ cc (rw (e, e', e'') at h)
    ]
  ]
]
  where
    first :
        (y : A)
        → some y ≡ some x
        → ((y ≡ a) ⊎ ((y ≡ b) ⊎ (y ≡ c)))
        → p y ≡ true
        → ((x ≡ a) ⊎ ((x ≡ b) ⊎ (x ≡ c))) × (p x ≡ true)
    first y e m h =
        subst (λ z. ((z ≡ a) ⊎ ((z ≡ b) ⊎ (z ≡ c))) × (p z ≡ true)) (some-injective y x e) (m, h)

found_three {ℓ} :
    {A : Type ℓ} (p : A → Bool) (a b c x : A)
    → (x ≡ a) ⊎ ((x ≡ b) ⊎ (x ≡ c))
    → p x ≡ true
    → find p (a ∷ b ∷ c ∷ []) ≢ none
found_three p a b c x (inl e) h = ground (arith, subst (λ y. p y ≡ true) e h)
found_three p a b c x (inr (inl e)) h = ground (arith, subst (λ y. p y ≡ true) e h)
found_three p a b c x (inr (inr e)) h = ground (arith, subst (λ y. p y ≡ true) e h)

step_or_zero-eq : (r : Option ℤ) (step : ℤ) → step_or_zero r ≡ (step, true) → r ≡ some step
step_or_zero-eq none step h = cc (ap (λ (q : ℤ × Bool). q.1) h)
step_or_zero-eq (some x) step h = ap some (ap (λ (q : ℤ × Bool). q.0) h)

step_or_zero-ne : (r : Option ℤ) → r ≢ none → (step_or_zero r).1 ≡ true
step_or_zero-ne none h = absurd (h refl)
step_or_zero-ne (some x) h = refl

module _ (o : Otp) (secret code : Text) (last_step : ℤ) (now : ℕ) where
  accepts-IsFresh :
      (step : ℤ)
      → ((step ≡ pred_ℤ (pos (now / totp_period)))
          ⊎ ((step ≡ pos (now / totp_period)) ⊎ (step ≡ suc_ℤ (pos (now / totp_period)))))
      → accepts o secret code last_step step ≡ true
      → IsFresh o secret code last_step now step
  accepts-IsFresh step m h = record {
    near = m;
    valid = is_ok-eq (o.validate_custom code (to_uint64 step) secret) (&&_true _ _ h).0;
    later = (&&_true _ _ h).1;
  }
    where
      is_ok-eq : (r : Option Bool) → is_ok r ≡ true → r ≡ some true
      is_ok-eq none h = cc
      is_ok-eq (some b) h = ap some h

  -- A step is returned as accepted only if it is the current one or a neighbour of it, later than
  -- the last one, and the code is valid for it.
  pub verify_totp-IsFresh :
      (step : ℤ)
      → verify_totp o secret code last_step now ≡ (step, true)
      → IsFresh o secret code last_step now step
  unfolding verify_totp
  verify_totp-IsFresh step h =
      let r = find_three (accepts o secret code last_step) _ _ _ step (step_or_zero-eq _ step h) in
      accepts-IsFresh step r.0 r.1

  -- Whenever some step near the current one is later than the last one and has the code valid for
  -- it, some step is accepted.
  pub verify_totp-accepts :
      (step : ℤ)
      → IsFresh o secret code last_step now step
      → (verify_totp o secret code last_step now).1 ≡ true
  unfolding verify_totp
  verify_totp-accepts step f =
      step_or_zero-ne _
        (found_three (accepts o secret code last_step) _ _ _ step f.near (rw (f.valid, f.later)))

  -- A code is accepted together with a step that is the current one or a neighbour of it, later
  -- than the last one, and valid for the code; or it is refused, and there is no such step.
  pub verify_totp-decides :
      ((verify_totp o secret code last_step now
          ≡ ((verify_totp o secret code last_step now).0, true))
        × IsFresh o secret code last_step now (verify_totp o secret code last_step now).0)
      ⊎ (((verify_totp o secret code last_step now).1 ≡ false)
          × ((step : ℤ) → IsFresh o secret code last_step now step → ⊥))
  verify_totp-decides =
      let r = verify_totp o secret code last_step now in
      elim (Bool-cases r.1) [
        | inl valid ↦
            let same : r ≡ (r.0, true) = ap (λ (b : Bool). (r.0, b)) valid in
            inl (same, verify_totp-IsFresh r.0 same)
        | inr refused ↦ inr (refused, λ step fresh. cc (verify_totp-accepts step fresh))
      ]
