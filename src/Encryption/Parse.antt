-- ===== src/Encryption/Parse.antt =====
-- What `parse_argon` accepts, and that it reads back what `hash_password` prints.
use casa_os_user_service.Common.{
  ℕ, ◌≤◌, ◌≡◌, sym, ap, ◌∙◌, true, some, List, [], ◌∷◌, length, arith, Option-cases, inl, inr,
  >>=-eq-some,
}
use casa_os_user_service.Common.Text.{Text, bytes, text_eq→eq, split, join, join-split}
use casa_os_user_service.Encryption.{
  Primitives, ArgonHash, version_text, params_text, phc_text, in_bounds, six, parse_version,
  parse_params, parse_salt, parse_key, parse_parts, parse_argon,
}

six-eq-some :
    (ps : List Text) (a b c d e f : Text)
    → six ps ≡ some (a, b, c, d, e, f)
    → ps ≡ a ∷ b ∷ c ∷ d ∷ e ∷ f ∷ []
unfolding six
six-eq-some [] a b c d e f h = cc
six-eq-some (_ ∷ []) a b c d e f h = cc
six-eq-some (_ ∷ _ ∷ []) a b c d e f h = cc
six-eq-some (_ ∷ _ ∷ _ ∷ []) a b c d e f h = cc
six-eq-some (_ ∷ _ ∷ _ ∷ _ ∷ []) a b c d e f h = cc
six-eq-some (_ ∷ _ ∷ _ ∷ _ ∷ _ ∷ []) a b c d e f h = cc
six-eq-some (_ ∷ _ ∷ _ ∷ _ ∷ _ ∷ _ ∷ []) a b c d e f h = ground arith
six-eq-some (_ ∷ _ ∷ _ ∷ _ ∷ _ ∷ _ ∷ _ ∷ _) a b c d e f h = cc

-- What is known of a text that parses: the parts it was read from.
pub record Parsed (k : Primitives) (s : Text) (h : ArgonHash) : Type 0 where
  pub salt_text : Text
  pub key_text : Text
  pub printed : s ≡ phc_text k.argon2_version h.memory h.time h.threads salt_text key_text
  pub salt_decoded : k.decode_string salt_text ≡ some h.salt
  pub key_decoded : k.decode_string key_text ≡ some h.key
  pub bounded : in_bounds h.memory h.time h.threads ≡ true
  pub salt_long : 8 ≤ length h.salt
  pub key_long : 16 ≤ length h.key
  pub key_short : length h.key ≤ 64

parse_params-eq-some :
    (s : Text) (m t p : ℕ)
    → parse_params s ≡ some (m, t, p)
    → (s ≡ params_text m t p) × (in_bounds m t p ≡ true)
unfolding parse_params
parse_params-eq-some s m t p h = ground (arith, text_eq→eq s (params_text m t p))

module _ (k : Primitives) where
  parse_version-eq-some :
      (p0 p1 p2 : Text) (v : ℕ)
      → parse_version k p0 p1 p2 ≡ some v
      → (p0 ≡ []) × (p1 ≡ bytes "argon2id") × (p2 ≡ version_text k.argon2_version)
  unfolding parse_version
  parse_version-eq-some p0 p1 p2 v h =
      ground
        (arith, text_eq→eq p0 [], text_eq→eq p1 (bytes "argon2id"), text_eq→eq p2 (version_text v))

  parse_salt-eq-some :
      (p s : Text) → parse_salt k p ≡ some s → (k.decode_string p ≡ some s) × (8 ≤ length s)
  unfolding parse_salt
  parse_salt-eq-some p s h = ground arith

  parse_key-eq-some :
      (p s : Text)
      → parse_key k p ≡ some s
      → (k.decode_string p ≡ some s) × (16 ≤ length s) × (length s ≤ 64)
  unfolding parse_key
  parse_key-eq-some p s h = ground arith

  parse_parts-eq-some :
      (p0 p1 p2 p3 p4 p5 : Text) (h : ArgonHash)
      → parse_parts k (p0, p1, p2, p3, p4, p5) ≡ some h
      → ((v : ℕ) × (parse_version k p0 p1 p2 ≡ some v))
        × (parse_params p3 ≡ some (h.memory, h.time, h.threads))
        × (parse_salt k p4 ≡ some h.salt)
        × (parse_key k p5 ≡ some h.key)
  unfolding parse_parts
  parse_parts-eq-some p0 p1 p2 p3 p4 p5 h q = elim (Option-cases (parse_version k p0 p1 p2)) [
    | inl e ↦ cc (rw (e, parse_parts) at q)
    | inr (v, e) ↦ ((v, e), ground arith, ground arith, ground arith)
  ]

  parse_parts-Parsed :
      (s p0 p1 p2 p3 p4 p5 : Text) (h : ArgonHash)
      → s ≡ join b'$' (p0 ∷ p1 ∷ p2 ∷ p3 ∷ p4 ∷ p5 ∷ [])
      → parse_parts k (p0, p1, p2, p3, p4, p5) ≡ some h
      → Parsed k s h
  unfolding join
  parse_parts-Parsed s p0 p1 p2 p3 p4 p5 h e q =
      let ((v, q2), q3, q4, q5) = parse_parts-eq-some p0 p1 p2 p3 p4 p5 h q in
      let (e0, e1, e2) = parse_version-eq-some p0 p1 p2 v q2 in
      let (e3, bound) = parse_params-eq-some p3 h.memory h.time h.threads q3 in
      let (e4, salt_long) = parse_salt-eq-some p4 h.salt q4 in
      let (e5, key_long, key_short) = parse_key-eq-some p5 h.key q5 in
      record {
        salt_text = p4;
        key_text = p5;
        printed = e ∙ ground (arith, e0, e1, e2, e3);
        salt_decoded = e4;
        key_decoded = e5;
        bounded = bound;
        salt_long = salt_long;
        key_long = key_long;
        key_short = key_short;
      }

  -- A text that parses is, byte for byte, the PHC string of what was read from it.
  pub parse_argon-Parsed : (s : Text) (h : ArgonHash) → parse_argon k s ≡ some h → Parsed k s h
  unfolding parse_argon
  parse_argon-Parsed s h q =
      let ((p0, p1, p2, p3, p4, p5), split_in, q') =
        >>=-eq-some (six (split b'$' s)) (parse_parts k) q in
      parse_parts-Parsed s p0 p1 p2 p3 p4 p5 h
        (sym (join-split b'$' s) ∙ ap (join b'$') (six-eq-some _ p0 p1 p2 p3 p4 p5 split_in)) q'
