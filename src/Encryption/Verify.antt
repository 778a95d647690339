-- ===== src/Encryption/Verify.antt =====
-- What `verify_password` and `needs_rehash` say of a fresh hash and of a legacy MD5.
use casa_os_user_service.Common.{
  ◌^◌, ◌≤◌, ◌<◌, ◌≡◌, refl, true, false, none, some, [], ◌∷◌, length, arith, inl, inr, Option-cases,
  ◌↔◌, ◌⊎◌,
}
use casa_os_user_service.Common.Text.{Text, text_eq_refl, split-Lacks, Lacks, text_eq_iff}
use casa_os_user_service.Encryption.{
  Primitives, IsBytes, IsLawful, ArgonHash, argon_memory, argon_time, argon_threads, argon_key_len,
  parse_argon, six, hash_password, hex, get_md5_by_str, verify_password, needs_rehash,
}
use casa_os_user_service.Encryption.Print.{parse_argon-hash_password}

hex-Lacks : (s : Text) → IsBytes s → Lacks b'$' (hex s)
unfolding hex
hex-Lacks [] h = tt
hex-Lacks (b ∷ s) (hb, hs) = (ground arith, (ground arith, hex-Lacks s hs))

module _ (k : Primitives) where
  abbrev pub today : Text → Text → Text
  today salt password =
      k.argon2_id_key password salt argon_time argon_memory argon_threads argon_key_len

  -- A legacy value is one part, so it is not read as an argon2id hash.
  parse_argon-get_md5_by_str :
      (p : Text) → IsBytes (k.md5_sum p) → parse_argon k (get_md5_by_str k p) ≡ none
  unfolding parse_argon get_md5_by_str six
  parse_argon-get_md5_by_str p h =
      rw (split-Lacks b'$' (hex (k.md5_sum p)) (hex-Lacks (k.md5_sum p) h))

  -- A candidate is accepted against the legacy MD5 of a password exactly when the two have the
  -- same MD5, and such a value is due for a fresh hash.
  pub verify_password-get_md5_by_str :
      (p candidate : Text)
      → IsBytes (k.md5_sum p)
      → ((verify_password k (get_md5_by_str k p) candidate ≡ true)
          ↔ (get_md5_by_str k p ≡ get_md5_by_str k candidate))
        × (needs_rehash k (get_md5_by_str k p) ≡ true)
  unfolding verify_password needs_rehash
  verify_password-get_md5_by_str p c h =
      rw (parse_argon-get_md5_by_str p h)
        (text_eq_iff (get_md5_by_str k p) (get_md5_by_str k c), refl)

  module _ (law : IsLawful k) (version : k.argon2_version < 2 ^ 63) (salt p : Text)
      (sb : IsBytes salt) (sl : 8 ≤ length salt) where
    -- Against a fresh hash, under a salt of eight bytes or more and a version that fits an int, a
    -- candidate is accepted exactly when it gives the same key under the same salt, so the password
    -- itself is, and the hash is not due for another.
    pub verify_password-hash_password :
        (candidate : Text)
        → ((verify_password k (hash_password k salt p) candidate ≡ true)
            ↔ (today salt candidate ≡ today salt p))
          × (verify_password k (hash_password k salt p) p ≡ true)
          × (needs_rehash k (hash_password k salt p) ≡ false)
    unfolding verify_password needs_rehash
    verify_password-hash_password c =
        rw
          (
            parse_argon-hash_password k law version salt p sb sl,
            law.length-id_key p salt argon_time argon_memory argon_threads argon_key_len,
          )
          (text_eq_iff (today salt c) (today salt p), text_eq_refl (today salt p), refl)

  -- Whatever is stored, a candidate that is accepted either gives the stored key of a hash that
  -- parses, or has the stored text for its MD5.
  pub verify_password_sound :
      (stored candidate : Text)
      → verify_password k stored candidate ≡ true
      → ((h : ArgonHash) × (parse_argon k stored ≡ some h)
          × (k.argon2_id_key candidate h.salt h.time h.memory h.threads (length h.key) ≡ h.key))
        ⊎ ((parse_argon k stored ≡ none) × (stored ≡ get_md5_by_str k candidate))
  unfolding verify_password
  verify_password_sound s c v = elim (Option-cases (parse_argon k s)) [
    | inl e ↦ inr (e, (text_eq_iff s (get_md5_by_str k c)).0 (rw e at v))
    | inr (h, e) ↦ inl (h, e, (text_eq_iff _ h.key).0 (rw e at v))
  ]
