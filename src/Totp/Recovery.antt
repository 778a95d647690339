-- ===== src/Totp/Recovery.antt =====
-- Recovery codes: those handed out are accepted, and one that is accepted is used up.
use mathlib.Core.List.{Memᴰ, Sublist}
use mathlib.Core.List.Sublist
use mathlib.Core.Option.{some-injective}
use casa_os_user_service.Common.{
  suc, ◌≡◌, refl, ap, inl, inr, Bool, true, false, some, List, [], ◌∷◌, ◌++◌, All, take, length,
  arith, Bool-cases, >>=-eq-some, subst, Option-cases,
}
use casa_os_user_service.Common.Text.{Text}
use casa_os_user_service.Totp.{
  Otp, Draw, IsLawful, IsLawfulDraw, to_lower, normalize, hash_code, new_recovery_code,
  new_recovery_codes, keep_head, remove_match, consume_recovery_code,
}
use casa_os_user_service.Totp.Normal.{IsPlain, All-take, IsPlain-to_lower, normalize-shown}

module _ (o : Otp) where
  -- One hash is removed: those before and after it stay, in their order.
  pub data Removes (code : Text) (hashes : List Text) (r : List Text × Bool) : Type 0 where
    removed :
        (before after : List Text) (h : Text)
        → hashes ≡ before ++ h ∷ after
        → All (λ q. o.compare_hash q code ≡ false) before
        → o.compare_hash h code ≡ true
        → r ≡ (before ++ after, true)
        → Removes code hashes r
    kept :
        All (λ q. o.compare_hash q code ≡ false) hashes
        → r ≡ (hashes, false)
        → Removes code hashes r

  remove_match-Removes :
      (code : Text) (hashes : List Text) → Removes code hashes (remove_match o code hashes)
  unfolding remove_match
  remove_match-Removes code [] = kept tt refl
  remove_match-Removes code (h ∷ hs) = elim (Bool-cases (o.compare_hash h code)) [
    | inl e ↦ removed [] hs h refl tt e (rw e refl)
    | inr e ↦ rw e (extend (remove_match-Removes code hs) e)
  ]
    where
      extend :
          {r : List Text × Bool}
          → Removes code hs r
          → o.compare_hash h code ≡ false
          → Removes code (h ∷ hs) (keep_head o h r)
      extend (removed before after q split_at miss hit e) no_match =
          removed (h ∷ before) after q (ap (λ t. h ∷ t) split_at) (no_match, miss) hit
            (ap (keep_head o h) e)
      extend (kept miss e) no_match = kept (no_match, miss) (ap (keep_head o h) e)

  -- Either the first stored hash that matches the normalised code is removed, the others staying in
  -- their order, and the code is accepted; or no stored hash matches it, the list is as it was, and
  -- the code is refused.
  pub consume_recovery_code-Removes :
      (hashes : List Text) (code : Text)
      → Removes (normalize code) hashes (consume_recovery_code o hashes code)
  unfolding consume_recovery_code
  consume_recovery_code-Removes hashes code = remove_match-Removes (normalize code) hashes

  none-match :
      (code : Text) (hashes : List Text)
      → All (λ q. o.compare_hash q code ≡ false) hashes
      → (h : Text) → Memᴰ h hashes
      → o.compare_hash h code ≡ true
      → ⊥
  none-match code [] misses h mem hit = elim mem [ ]
  none-match code (q ∷ qs) (miss, misses) h (Memᴰ.head e) hit =
      cc (miss, ap (λ t. o.compare_hash t code) e)
  none-match code (q ∷ qs) (miss, misses) h (Memᴰ.tail m) hit = none-match code qs misses h m hit

  Removes-true :
      (code : Text) (hashes : List Text) (r : List Text × Bool) (h : Text)
      → Removes code hashes r
      → Memᴰ h hashes
      → o.compare_hash h code ≡ true
      → r.1 ≡ true
  Removes-true code hashes r h (removed before after q s m t e) mem hit =
      ap (λ (p : List Text × Bool). p.1) e
  Removes-true code hashes r h (kept misses e) mem hit =
      absurd (none-match code hashes misses h mem hit)

  -- The code as shown has a hash in the list.
  abbrev HasHash : List Text → Text → Type 0
  HasHash hashes p = (h : Text) × Memᴰ h hashes × (o.compare_hash h (normalize p) ≡ true)

  module _ (law : IsLawful o) where
    new_recovery_code-matches :
        (d : Draw) (p h : Text)
        → IsLawfulDraw o d
        → new_recovery_code o d ≡ some (p, h)
        → o.compare_hash h (normalize p) ≡ true
    unfolding new_recovery_code
    new_recovery_code-matches d p h dl e = elim (Option-cases d.raw) [
      | inl none_read ↦ cc (rw (none_read, new_recovery_code) at e)
      | inr (raw, read) ↦
          let code = take 10 (to_lower (o.encode_to_string raw)) in
          let plain : IsPlain code =
            All-take _ 10 _ (IsPlain-to_lower _ (law.encode-alphabet raw)) in
          elim (Option-cases (d.generate code)) [
            | inl failed ↦ cc (rw (failed, hash_code) at (opened raw e read))
            | inr (hash, made) ↦ ground (
              arith,
              opened raw e read,
              normalize-shown 5 code plain,
              dl.compare-generate code hash,
            )
          ]
    ]
      where
        opened :
            (raw : Text)
            → new_recovery_code o d ≡ some (p, h)
            → d.raw ≡ some raw
            → hash_code d (take 10 (to_lower (o.encode_to_string raw))) ≡ some (p, h)
        opened raw e read = rw (read, new_recovery_code) at e

    HasHash-more :
        (h : Text) (hashes plains : List Text)
        → All (HasHash hashes) plains
        → All (HasHash (h ∷ hashes)) plains
    HasHash-more h hashes [] a = tt
    HasHash-more h hashes (p ∷ ps) ((q, m, e), a) =
        ((q, Memᴰ.tail m, e), HasHash-more h hashes ps a)

    -- What holds of the codes and hashes of some rounds.
    abbrev Handed : List Draw → List Text × List Text → Type 0
    Handed ds r = All (HasHash r.1) r.0 × (length r.0 ≡ length ds) × (length r.1 ≡ length ds)

    Handed-cons :
        (d : Draw) (ds : List Draw) (q r : List Text × List Text) (p h : Text)
        → o.compare_hash h (normalize p) ≡ true
        → Handed ds q
        → some (p ∷ q.0, h ∷ q.1) ≡ some r
        → Handed (d ∷ ds) r
    Handed-cons d ds q r p h hit (a, lp, lh) e =
        subst (Handed (d ∷ ds)) (some-injective _ _ e)
          (((h, Memᴰ.head refl, hit), HasHash-more h q.1 q.0 a), ap suc lp, ap suc lh)

    new_recovery_codes-Handed :
        (ds : List Draw) (r : List Text × List Text)
        → All (IsLawfulDraw o) ds
        → new_recovery_codes o ds ≡ some r
        → Handed ds r
    unfolding new_recovery_codes
    new_recovery_codes-Handed [] r dl e = subst (Handed []) (some-injective _ _ e) (tt, refl, refl)
    new_recovery_codes-Handed (d ∷ ds) r (dl, dls) e =
        let (ph, made, e') = >>=-eq-some (new_recovery_code o d) _ e in
        let (q, more, e'') = >>=-eq-some (new_recovery_codes o ds) _ e' in
        Handed-cons d ds q r ph.0 ph.1 (new_recovery_code-matches d ph.0 ph.1 dl made)
          (new_recovery_codes-Handed ds q dls more) e''

    All-accepted :
        (hashes plains : List Text)
        → All (HasHash hashes) plains
        → All (λ p. (consume_recovery_code o hashes p).1 ≡ true) plains
    All-accepted hashes [] a = tt
    All-accepted hashes (p ∷ ps) ((h, m, hit), a) = (
      Removes-true (normalize p) hashes _ h (consume_recovery_code-Removes hashes p) m hit,
      All-accepted hashes ps a,
    )

    -- As many codes and hashes are made as there are rounds, and each code, typed as it is shown,
    -- is accepted against the hashes.
    pub new_recovery_codes-accepted :
        (ds : List Draw) (plains hashes : List Text)
        → All (IsLawfulDraw o) ds
        → new_recovery_codes o ds ≡ some (plains, hashes)
        → All (λ p. (consume_recovery_code o hashes p).1 ≡ true) plains
          × (length plains ≡ length ds)
          × (length hashes ≡ length ds)
    new_recovery_codes-accepted ds plains hashes dl e =
        let (a, lp, lh) = new_recovery_codes-Handed ds (plains, hashes) dl e in
        (All-accepted hashes plains a, lp, lh)

  -- What is left are the hashes of before, but for the one that was accepted.
  pub consume_recovery_code-Sublist :
      (hashes : List Text) (code : Text) → Sublist (consume_recovery_code o hashes code).0 hashes
  consume_recovery_code-Sublist hashes code = left (consume_recovery_code-Removes hashes code)
    where
      left : {r : List Text × Bool} → Removes (normalize code) hashes r → Sublist r.0 hashes
      left (removed before after h e m t q) =
          rw (e, q) (Sublist.append (Sublist.refl before) (Sublist.cons h (Sublist.refl after)))
      left (kept m q) = rw q (Sublist.refl hashes)
