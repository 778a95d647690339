-- ===== src/Route/Images/Stored.antt =====
-- What the image handlers end, lose and serve.
use casa_os_user_service.Common.{
  ℕ, ◌*◌, ◌^◌, ◌≡◌, ◌≢◌, ◌↔◌, refl, sym, ap, ◌∙◌, true, false, Option, none, some, [], ◌∷◌, ◌++◌,
  ltb, ◌==◌, drop, length, arith, Bool-cases, inl, inr,
}
use casa_os_user_service.Common.Text.{Text, bytes, is_empty, text_eq}
use casa_os_user_service.Common.Decimal.{is_digit}
use casa_os_user_service.Disk.{
  info, IsLawful, unremoved, exists, has_prefix, contains, get_ext, copy_over, copy_single_file,
  Result, ok, err,
}
use casa_os_user_service.Disk.Images.{get_image_ext}
use casa_os_user_service.Users.Database.{UserDbModel}
use casa_os_user_service.Users.{get_user_info_by_id}
use casa_os_user_service.Route.{
  Deps, World, Json, Response, Served, replied, exited, file_at, user_dir, http,
}
use casa_os_user_service.Route.Images.{
  drop_first, starts_in_digit, is_user_file, avatar_decoded, avatar_read, put_user_avatar,
  image_reply, put_user_image, image_found, get_user_image,
}

has_prefix-drop : (s t : Text) → has_prefix s t ≡ true → s ≡ t ++ drop (length t) s
unfolding has_prefix
has_prefix-drop s [] h = refl
has_prefix-drop [] (c ∷ t) h = cc
has_prefix-drop (x ∷ s) (c ∷ t) h = ground (arith, has_prefix-drop s t)

starts_in_digit-cons :
    (s : Text)
    → starts_in_digit s ≡ true
    → (c : ℕ) × (rest : Text) × (s ≡ c ∷ rest) × (is_digit c ≡ true)
starts_in_digit-cons [] h = cc
starts_in_digit-cons (c ∷ s) h = (c, s, refl, h)

is_user_file-eq :
    (path : Text)
    → is_user_file path ≡ true
    → (c : ℕ) × (rest : Text) × (path ≡ bytes "/var/lib/casaos/" ++ c ∷ rest) × (is_digit c ≡ true)
unfolding is_user_file
is_user_file-eq path h =
    let (c, rest, e, digit) = starts_in_digit-cons (drop 16 path) (ground arith) in
    (
      c,
      rest,
      has_prefix-drop path (bytes "/var/lib/casaos/") (ground arith)
          ∙ ap (λ t. bytes "/var/lib/casaos/" ++ t) e,
      digit,
    )

module _ (d : Deps) where
  replied-exited : (r : Response) (w w' : World d) → ◌≢◌ {A = Served d} (replied r w) (exited w')
  replied-exited r w w' = λ e. cc

  avatar_read-exits :
      (id : Text) (user : UserDbModel) (w : World d) (r : Result Text) (w' : World d)
      → avatar_read d id user w r ≡ exited w'
      → (w' ≡ w) × (t : Text) × (r ≡ ok t) × (d.web.decode_image t ≡ none)
  avatar_read-exits id user w (err e) w' h = absurd (replied-exited _ _ w' h)
  avatar_read-exits id user w (ok t) w' h = decoded (d.web.decode_image t) refl h
    where
      decoded :
          (o : Option d.web.Image)
          → d.web.decode_image t ≡ o
          → avatar_decoded d id user w o ≡ exited w'
          → (w' ≡ w)
            × (t' : Text) × (◌≡◌ {A = Result Text} (ok t) (ok t'))
            × (d.web.decode_image t' ≡ none)
      decoded none e k = (cc, t, refl, e)
      decoded (some image) e k = absurd (replied-exited _ _ w' k)

  -- The avatar of the request, out of base64.
  abbrev pub sent : Json → Result Text
  sent json = d.web.decode_base64 (drop_first (json "file") (bytes "data:image/png;base64,"))

  abbrev pub NoImage : Text → Json → World d → Type 0
  NoImage id json w =
      ((get_user_info_by_id d.gorm id w.db).id ≢ 0)
      × (t : Text) × (sent json ≡ ok t)
      × (d.web.decode_image t ≡ none)

  put_user_avatar-NoImage :
      (id : Text) (json : Json) (w w' : World d)
      → put_user_avatar d id json w ≡ exited w'
      → (w' ≡ w) × NoImage id json w
  unfolding put_user_avatar
  put_user_avatar-NoImage id json w w' h =
      elim (Bool-cases ((get_user_info_by_id d.gorm id w.db).id == 0)) [
        | inl gone ↦ absurd (replied-exited _ w w' (rw gone at h))
        | inr here ↦
            let (same, t, e, bad) =
              avatar_read-exits id (get_user_info_by_id d.gorm id w.db) w _ w' (rw here at h) in
            (same, ((λ z. ground arith), t, e, bad))
      ]

  NoImage-exits :
      (id : Text) (json : Json) (w : World d)
      → NoImage id json w
      → put_user_avatar d id json w ≡ exited w
  unfolding put_user_avatar
  NoImage-exits id json w (known, t, e, bad) =
      let here : ((get_user_info_by_id d.gorm id w.db).id == 0) ≡ false = ground arith in
      rw (here, e, bad) refl

  -- The whole service ends in `PutUserAvatar` exactly when the account was found and the payload
  -- decodes from base64 to what is no image; nothing has changed by then.
  pub put_user_avatar-exits :
      (id : Text) (json : Json) (w w' : World d)
      → (put_user_avatar d id json w ≡ exited w') ↔ ((w' ≡ w) × NoImage id json w)
  put_user_avatar-exits id json w w' = (
    put_user_avatar-NoImage id json w w',
    λ (same, no_image). NoImage-exits id json w no_image ∙ ap exited (sym same),
  )

  image_found-file :
      (w : World d) (r : Result Text) (path : Text)
      → (image_found d w r).body ≡ file_at path
      → (r ≡ ok path)
        × (exists d.fs path w.files ≡ true)
        × (contains path d.user_data_path ≡ true)
        × (is_user_file path ≡ true)
  image_found-file w (err e) path h = cc
  image_found-file w (ok p) path h = elim (Bool-cases (exists d.fs p w.files)) [
    | inr e ↦ cc (rw e at h)
    | inl there ↦ elim (Bool-cases (contains p d.user_data_path)) [
      | inr e ↦ cc (rw (there, e) at h)
      | inl inside ↦ elim (Bool-cases (is_user_file p)) [
        | inr e ↦ cc (rw (there, inside, e) at h)
        | inl under ↦ elim (Bool-cases (d.fs.sends p w.files)) [
          | inr e ↦ cc (rw (there, inside, under, e) at h)
          | inl sent ↦
              let same : p ≡ path = cc (rw (there, inside, under, sent) at h) in
              (ap ok same, rw⁻¹ same there, rw⁻¹ same inside, rw⁻¹ same under)
        ]
      ]
    ]
  ]

  -- A file is served only if the request's path cleans to its path, it is there, the configured
  -- directory stands somewhere in that path, and the path starts with "/var/lib/casaos/" and a
  -- digit, whatever directory is configured.
  pub get_user_image-file :
      (asked path : Text) (w : World d)
      → (get_user_image d asked w).body ≡ file_at path
      → (d.fs.abs_clean asked ≡ ok path)
        × (exists d.fs path w.files ≡ true)
        × (contains path d.user_data_path ≡ true)
        × (c : ℕ) × (rest : Text) × (path ≡ bytes "/var/lib/casaos/" ++ c ∷ rest)
        × (is_digit c ≡ true)
  unfolding get_user_image
  get_user_image-file asked path w h = elim (Bool-cases (is_empty asked)) [
    | inl e ↦ cc (rw e at h)
    | inr given ↦
        let (a, b, c, under) = image_found-file w _ path (rw given at h) in
        let (x, rest, e, digit) = is_user_file-eq path under in (a, b, c, x, rest, e, digit)
  ]

  copy_single_file-same :
      (path : Text) (f : d.fs.Files)
      → IsLawful d.fs
      → exists d.fs path f ≡ true
      → ((e : Text) → (d.fs.remove path f).0 ≢ unremoved e)
      → (e : Text) × (d.fs.read_file path (copy_single_file d.fs path path (bytes "overwrite") f).1
          ≡ err e)
  unfolding copy_single_file copy_over text_eq
  copy_single_file-same path f law there gone =
      let (e, lost) = law.remove-read path f gone in (e, rw (there, lost) lost)

  -- An image that is already the stored image of its user under the key is answered by success, and
  -- is deleted: if it is there and its removal does not fail, it cannot be read afterwards.
  pub put_user_image-same :
      (id key ext : Text) (size mode : ℕ) (json : Json) (w : World d)
      → IsLawful d.fs
      → (get_user_info_by_id d.gorm id w.db).id ≢ 0
      → is_empty key ≡ false
      → is_empty (json "path") ≡ false
      → d.fs.stat (json "path") w.files ≡ info size mode
      → ltb (10 * 2 ^ 20) size ≡ false
      → get_image_ext d.fs (json "path") w.files ≡ ok ext
      → ((e : Text) → (d.fs.remove (json "path") w.files).0 ≢ unremoved e)
      → json "path"
        ≡ user_dir d (get_user_info_by_id d.gorm id w.db).id
          ++ b'/' ∷ (key ++ get_ext (json "path"))
      → (w' : World d) × (e : Text) × (put_user_image d id key json w
          ≡ replied
              (record (image_reply d (json "path") (key ++ get_ext (json "path"))) {
                status = http 200;
              })
              w')
        × (d.fs.read_file (json "path") w'.files ≡ err e)
  unfolding put_user_image exists
  put_user_image-same id key ext size mode json w law known keyed named there small image gone
        same =
      let here : ((get_user_info_by_id d.gorm id w.db).id == 0) ≡ false = ground arith in
      let (e, lost) = copy_single_file-same (json "path") w.files law (rw there refl) gone in
      (
        record w {
          files = (copy_single_file d.fs (json "path") (json "path") (bytes "overwrite") w.files).1;
        },
        e,
        rw (keyed, named, there, image, here, there, small, sym same) refl,
        lost,
      )
