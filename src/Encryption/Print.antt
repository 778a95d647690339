-- ===== src/Encryption/Print.antt =====
-- `parse_argon` reads back what `hash_password` prints.
use mathlib.Core.List.{append-nil}
use casa_os_user_service.Common.{
  ℕ, ◌^◌, ◌≤◌, ◌<◌, ◌≡◌, refl, sym, ap, ◌∙◌, true, some, [], ◌∷◌, ◌++◌, length, arith, subst,
  le→leb, ==_refl, lt→ltb,
}
use casa_os_user_service.Common.Text.{
  Text, bytes, text_eq, text_eq_refl, split, split-Lacks, split-append_cons, Lacks,
}
use casa_os_user_service.Common.Decimal.{
  itoa, scan_from, scan_from-itoa, itoa-digits, itoa-cons, Lacks-digits, Lacks-append,
}
use casa_os_user_service.Encryption.{
  Primitives, IsBytes, IsLawful, ArgonHash, version_text, params_text, phc_text, scan_uint,
  scan_version, scan_params, in_bounds, six, parse_version, parse_params, parse_salt, parse_key,
  parse_parts, parse_argon, hash_password, argon_memory, argon_time, argon_threads, argon_key_len,
}

scan_uint-itoa :
    (limit n : ℕ) (r : Text)
    → n < limit
    → scan_from n r ≡ (n, r)
    → scan_uint limit (itoa n ++ r) ≡ some (n, r)
unfolding scan_uint
scan_uint-itoa limit n r h e =
    let (d, ds, p, digit) = itoa-cons n in
    let whole : scan_from 0 (d ∷ (ds ++ r)) ≡ (n, r) =
      ap (λ t. scan_from 0 (t ++ r)) (sym p) ∙ scan_from-itoa n r ∙ e in
    rw (p, whole, digit, lt→ltb n limit h)

scan_uint-itoa_end : (limit n : ℕ) → n < limit → scan_uint limit (itoa n) ≡ some (n, [])
unfolding scan_from
scan_uint-itoa_end limit n h =
    subst (λ s. scan_uint limit s ≡ some (n, [])) (append-nil (itoa n))
      (scan_uint-itoa limit n [] h refl)

scan_version-version_text : (v : ℕ) → v < 2 ^ 63 → scan_version (version_text v) ≡ some v
unfolding scan_version
scan_version-version_text v h = rw (scan_uint-itoa_end (2 ^ 63) v h)

scan_params-params_text :
    (m t p : ℕ)
    → m < 2 ^ 32
    → t < 2 ^ 32
    → p < 2 ^ 8
    → scan_params (params_text m t p) ≡ some (m, t, p)
unfolding scan_params scan_from
scan_params-params_text m t p hm ht hp = rw (
  scan_uint-itoa (2 ^ 32) m (bytes ",t=" ++ (itoa t ++ (bytes ",p=" ++ itoa p))) hm refl,
  scan_uint-itoa (2 ^ 32) t (bytes ",p=" ++ itoa p) ht refl,
  scan_uint-itoa_end (2 ^ 8) p hp,
)

Lacks-itoa : (n : ℕ) → Lacks b'$' (itoa n)
Lacks-itoa n = Lacks-digits b'$' (itoa n) refl (itoa-digits n)

Lacks-version_text : (v : ℕ) → Lacks b'$' (version_text v)
Lacks-version_text v = Lacks-append b'$' (bytes "v=") _ (ground arith) (Lacks-itoa v)

Lacks-params_text : (m t p : ℕ) → Lacks b'$' (params_text m t p)
Lacks-params_text m t p = Lacks-append b'$' (bytes "m=") _ (ground arith) (
    Lacks-append b'$' (itoa m) _ (Lacks-itoa m) (
      Lacks-append b'$' (bytes ",t=") _ (ground arith) (
        Lacks-append b'$' (itoa t) _ (Lacks-itoa t)
          (Lacks-append b'$' (bytes ",p=") _ (ground arith) (Lacks-itoa p)))))

module _ (v m t p : ℕ) (salt key : Text) (salt_lacks : Lacks b'$' salt)
    (key_lacks : Lacks b'$' key) where
  split-phc_text :
      split b'$' (phc_text v m t p salt key)
      ≡ [] ∷ bytes "argon2id" ∷ version_text v ∷ params_text m t p ∷ salt ∷ key ∷ []
  split-phc_text =
      split-append_cons b'$' [] _ tt
      ∙ ap (λ ps. [] ∷ ps)
          (split-append_cons b'$' (bytes "argon2id") _ (ground arith)
            ∙ ap (λ ps. bytes "argon2id" ∷ ps)
                (split-append_cons b'$' (version_text v) _ (Lacks-version_text v)
                  ∙ ap (λ ps. version_text v ∷ ps)
                      (split-append_cons b'$' (params_text m t p) _ (Lacks-params_text m t p)
                        ∙ ap (λ ps. params_text m t p ∷ ps)
                            (split-append_cons b'$' salt key salt_lacks
                              ∙ ap (λ ps. salt ∷ ps) (split-Lacks b'$' key key_lacks)))))

parse_params-params_text :
    (m t p : ℕ) → in_bounds m t p ≡ true → parse_params (params_text m t p) ≡ some (m, t, p)
unfolding parse_params
parse_params-params_text m t p h = rw (
  scan_params-params_text m t p (ground arith) (ground arith) (ground arith),
  text_eq_refl (params_text m t p),
  h,
)

module _ (k : Primitives) where
  parse_version-version_text :
      k.argon2_version < 2 ^ 63
      → parse_version k [] (bytes "argon2id") (version_text k.argon2_version)
        ≡ some k.argon2_version
  unfolding parse_version text_eq
  parse_version-version_text h = rw (
    scan_version-version_text k.argon2_version h,
    text_eq_refl (itoa k.argon2_version),
    ==_refl k.argon2_version,
  )

  -- Every PHC string of this version, with parameters in bounds and a salt and a key of allowed
  -- lengths, parses to those.
  pub parse_argon-phc_text :
      (h : ArgonHash) (salt_text key_text : Text)
      → k.argon2_version < 2 ^ 63
      → in_bounds h.memory h.time h.threads ≡ true
      → Lacks b'$' salt_text
      → Lacks b'$' key_text
      → k.decode_string salt_text ≡ some h.salt
      → k.decode_string key_text ≡ some h.key
      → 8 ≤ length h.salt
      → 16 ≤ length h.key
      → length h.key ≤ 64
      → parse_argon k (phc_text k.argon2_version h.memory h.time h.threads salt_text key_text)
        ≡ some h
  unfolding parse_argon parse_parts parse_salt parse_key six
  parse_argon-phc_text h st kt hv bound ls lk ds dk sl kl ks = rw (
    split-phc_text k.argon2_version h.memory h.time h.threads st kt ls lk,
    parse_version-version_text hv,
    parse_params-params_text h.memory h.time h.threads bound,
    ds,
    dk,
    le→leb 8 (length h.salt) sl,
    le→leb 16 (length h.key) kl,
    le→leb (length h.key) 64 ks,
  )

  -- A fresh hash reads back with today's parameters, the salt and the key.
  pub parse_argon-hash_password :
      IsLawful k
      → k.argon2_version < 2 ^ 63
      → (salt password : Text) → IsBytes salt
      → 8 ≤ length salt
      → parse_argon k (hash_password k salt password)
        ≡ some (record {
          memory = argon_memory;
          time = argon_time;
          threads = argon_threads;
          salt = salt;
          key = k.argon2_id_key password salt argon_time argon_memory argon_threads argon_key_len;
        })
  unfolding hash_password
  parse_argon-hash_password law hv salt password sb sl =
      let key = k.argon2_id_key password salt argon_time argon_memory argon_threads argon_key_len in
      let kb =
        law.id_key-IsBytes password salt argon_time argon_memory argon_threads argon_key_len in
      let len =
        law.length-id_key password salt argon_time argon_memory argon_threads argon_key_len in
      parse_argon-phc_text _ (k.encode_to_string salt) (k.encode_to_string key) hv refl
        (law.encode-Lacks salt sb) (law.encode-Lacks key kb) (law.decode-encode salt sb)
        (law.decode-encode key kb) sl (omega (arith, len)) (omega (arith, len))
