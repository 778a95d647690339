-- ===== src/Route/UserFiles/Removed.antt =====
-- Which files a user can have removed.
use casa_os_user_service.Common.{
  ℕ, ◌≡◌, ◌≢◌, ◌↔◌, ap, ==_iff, refl, ◌⊎◌, inl, inr, true, false, [], ◌∷◌, ◌++◌, ◌==◌, ==_refl,
  arith, Bool-cases,
}
use casa_os_user_service.Common.Text.{Text, is_empty}
use casa_os_user_service.Common.Decimal.{itoa}
use casa_os_user_service.Users.{get_user_info_by_id}
use casa_os_user_service.Route.{Deps, World, reply, success, user_dir, err, unremoved}
use casa_os_user_service.Route.UserFiles.{delete_user_image}
use casa_os_user_service.Disk.{IsLawful, exists, has_prefix, contains}

has_prefix-append : (t rest : Text) → has_prefix (t ++ rest) t ≡ true
unfolding has_prefix
has_prefix-append [] rest = refl
has_prefix-append (c ∷ t) rest = ground (arith, has_prefix-append t rest, ==_refl c)

contains-cons : (c : ℕ) (s t : Text) → contains s t ≡ true → contains (c ∷ s) t ≡ true
unfolding contains
contains-cons c s t h = ground arith

contains-append : (t rest : Text) → is_empty t ≡ false → contains (t ++ rest) t ≡ true
unfolding contains
contains-append [] rest h = cc
contains-append (c ∷ t) rest h = rw (has_prefix-append (c ∷ t) rest) refl

is_empty-append : (s t : Text) → is_empty t ≡ false → is_empty (s ++ t) ≡ false
is_empty-append [] t h = h
is_empty-append (c ∷ s) t h = refl

is_empty-front : (s t : Text) → is_empty s ≡ false → is_empty (s ++ t) ≡ false
is_empty-front [] t h = cc
is_empty-front (c ∷ s) t h = refl

-- What has a prefix is the prefix and a rest.
has_prefix-split : (s t : Text) → has_prefix s t ≡ true → (rest : Text) × (s ≡ t ++ rest)
unfolding has_prefix
has_prefix-split s [] h = (s, refl)
has_prefix-split [] (c ∷ t) h = cc
has_prefix-split (x ∷ s) (c ∷ t) h =
    let same : x ≡ c = ground (arith, ==_iff x c) in
    let (rest, e) = has_prefix-split s t (ground (arith, ==_iff x c)) in
    (rest, rw same (ap (λ (q : Text). c ∷ q) e))

contains-split :
    (s t : Text) → contains s t ≡ true → (before after : Text) × (s ≡ before ++ (t ++ after))
unfolding contains
contains-split [] t h = let (rest, e) = has_prefix-split [] t h in ([], rest, e)
contains-split (c ∷ s) t h = elim (Bool-cases (has_prefix (c ∷ s) t)) [
  | inl here ↦ let (rest, e) = has_prefix-split (c ∷ s) t here in ([], rest, e)
  | inr later ↦
      let (before, rest, e) = contains-split s t (rw later at h) in
      (c ∷ before, rest, ap (λ (q : Text). c ∷ q) e)
]

contains-middle :
    (before t after : Text) → is_empty t ≡ false → contains (before ++ (t ++ after)) t ≡ true
contains-middle [] t after h = contains-append t after h
contains-middle (c ∷ before) t after h = step (contains-middle before t after h)
  where
    step :
        contains (before ++ (t ++ after)) t ≡ true
        → contains (c ∷ (before ++ (t ++ after))) t ≡ true
    step k = contains-cons c (before ++ (t ++ after)) t k

module _ (d : Deps) where
  -- A file that `DeleteUserImage` takes for one of the user's own: it is there, and the directory of
  -- the user stands anywhere in its path, whatever comes before and after it, further digits of
  -- another id included.
  pub record TakenForOwn (i : ℕ) (path : Text) (f : d.fs.Files) : Type 0 where
    pub known : i ≢ 0
    pub there : exists d.fs path f ≡ true
    pub before : Text
    pub after : Text
    pub inside : path ≡ before ++ (user_dir d i ++ after)

  user_dir-given : (i : ℕ) → is_empty (user_dir d i) ≡ false
  user_dir-given i = is_empty-append d.user_data_path (b'/' ∷ itoa i) refl

  TakenForOwn-contains :
      (i : ℕ) (path : Text) (f : d.fs.Files)
      → TakenForOwn i path f
      → (is_empty path ≡ false) × (contains path (user_dir d i) ≡ true)
  TakenForOwn-contains i path f own = (
    rw (own.inside)
        (is_empty-append own.before _ (is_empty-front (user_dir d i) own.after (user_dir-given i))),
    rw (own.inside) (contains-middle own.before (user_dir d i) own.after (user_dir-given i)),
  )

  -- The ways that the handler can go.
  delete_user_image-cases :
      (id path : Text) (w : World d)
      → let i = (get_user_info_by_id d.gorm id w.db).id in
        (((delete_user_image d id path w).1 ≡ w)
          × ((delete_user_image d id path w).0.success ≢ success)
          × (TakenForOwn i path w.files → ⊥))
        ⊎ (TakenForOwn i path w.files
            × (delete_user_image d id path w
                ≡ (reply success success, record w { files = (d.fs.remove path w.files).1 })))
  unfolding delete_user_image
  delete_user_image-cases id path w =
      let i = (get_user_info_by_id d.gorm id w.db).id in
      elim (Bool-cases (is_empty path)) [
        | inl e ↦
            inl (rw e (refl, λ q. cc, λ own. cc ((TakenForOwn-contains i path w.files own).0, e)))
        | inr given ↦ elim (Bool-cases (i == 0)) [
          | inl e ↦ inl (rw (given, e) (refl, λ q. cc, λ own. own.known (ground arith)))
          | inr known ↦ elim (Bool-cases (exists d.fs path w.files)) [
            | inr e ↦ inl (rw (given, known, e) (refl, λ q. cc, λ own. cc (own.there, e)))
            | inl there ↦ elim (Bool-cases (contains path (user_dir d i))) [
              | inr e ↦ inl (
                  rw (given, known, there, e)
                    (refl, λ q. cc, λ own. cc ((TakenForOwn-contains i path w.files own).1, e)))
              | inl inside ↦
                  let (before, after, e) = contains-split path (user_dir d i) inside in
                  inr (
                    record {
                      known = λ z. ground arith;
                      there = there;
                      before = before;
                      after = after;
                      inside = e;
                    },
                    rw (given, known, there, inside) refl,
                  )
            ]
          ]
        ]
      ]

  -- The handler replies success exactly for the files that it takes for the user's own; else
  -- nothing changes. Such a file cannot be read afterwards, if its removal does not fail: the
  -- directory of the user need not be where the path starts, nor end at a slash.
  pub delete_user_image-TakenForOwn :
      (id path : Text) (w : World d)
      → IsLawful d.fs
      → let i = (get_user_info_by_id d.gorm id w.db).id in
        let r = delete_user_image d id path w in
        ((r.0.success ≡ success) ↔ TakenForOwn i path w.files)
        × ((TakenForOwn i path w.files → ⊥) → r.1 ≡ w)
        × (TakenForOwn i path w.files
            → ((e : Text) → (d.fs.remove path w.files).0 ≢ unremoved e)
            → (e : Text) × (d.fs.read_file path r.1.files ≡ err e))
  delete_user_image-TakenForOwn id path w law = elim (delete_user_image-cases id path w) [
    | inl (same, refusal, other) ↦ (
      (λ h. absurd (refusal h), λ own. absurd (other own)),
      λ _. same,
      λ own gone. absurd (other own),
    )
    | inr (own, e) ↦ rw e (
      (λ h. own, λ _. refl),
      λ other. absurd (other own),
      λ _ gone. law.remove-read path w.files gone,
    )
  ]
