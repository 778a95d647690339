-- ===== src/Users/Found.antt =====
-- The row that is read for an id in decimal.
use casa_os_user_service.Common.{
  ℕ, ◌≡◌, ◌≢◌, refl, ap, ◌∙◌, inl, inr, true, some, List, [], ◌∷◌, ◌==◌, find, arith, Option-cases,
  ==_iff, fun_ext,
}
use casa_os_user_service.Common.Decimal.{itoa}
use casa_os_user_service.Users.Database.{UserDbModel, Condition, Gorm, IsLawful}
use casa_os_user_service.Users.Table.{lookup_id}
use casa_os_user_service.Users.Cas.{account}
use casa_os_user_service.Users.{get_user_info_by_id, get_user_all_info_by_id, select_info}

find-holds :
    (c : Condition) (rs : List UserDbModel) (r : UserDbModel) → find c rs ≡ some r → c r ≡ true
find-holds c [] r e = cc
find-holds c (q ∷ rs) r e = ground (arith, find-holds c rs r)

module _ (g : Gorm) (law : IsLawful g) where
  pub first-holds :
      (c : Condition) (s : g.State) (r : UserDbModel) → g.first c s ≡ some r → c r ≡ true
  first-holds c s r e = elim (law.first-rows c s) [
    | inl gone ↦ cc
    | inr found ↦ find-holds c (g.rows s) r (cc)
  ]

  pub get_user_all_info_by_id-id :
      (i : ℕ) (s : g.State)
      → (get_user_all_info_by_id g (itoa i) s).id ≢ 0
      → (get_user_all_info_by_id g (itoa i) s).id ≡ i
  unfolding get_user_all_info_by_id
  get_user_all_info_by_id-id i s known =
      elim (Option-cases (g.first (λ r. g.id_is (itoa i) r.id) s)) [
        | inl gone ↦ absurd (known (rw gone refl))
        | inr (u, found) ↦ rw found (
            (==_iff u.id i).0
              (rw (law.id_is-itoa i u.id) at (first-holds (λ r. g.id_is (itoa i) r.id) s u found)))
      ]

  pub get_user_info_by_id-id :
      (i : ℕ) (s : g.State)
      → (get_user_info_by_id g (itoa i) s).id ≢ 0
      → (get_user_info_by_id g (itoa i) s).id ≡ i
  unfolding get_user_info_by_id get_user_all_info_by_id select_info
  get_user_info_by_id-id i s known = get_user_all_info_by_id-id i s known

  -- A row that was read by its id in decimal is the row of that id.
  pub get_user_all_info_by_id-account :
      (i : ℕ) (s : g.State)
      → (get_user_all_info_by_id g (itoa i) s).id ≢ 0
      → account g i s ≡ some (get_user_all_info_by_id g (itoa i) s)
  unfolding get_user_all_info_by_id lookup_id
  get_user_all_info_by_id-account i s known = elim (law.first-rows (λ r. g.id_is (itoa i) r.id) s) [
    | inl gone ↦ absurd (known (rw gone refl))
    | inr found ↦
        let same : g.first (λ r. g.id_is (itoa i) r.id) s ≡ find (λ r. r.id == i) (g.rows s) =
          found
          ∙ ap (λ (c : Condition). find c (g.rows s))
              (fun_ext (λ (r : UserDbModel). law.id_is-itoa i r.id)) in
        elim (Option-cases (find (λ r. r.id == i) (g.rows s))) [
          | inl gone ↦ absurd (known (rw (same, gone) refl))
          | inr (u, here) ↦ rw (same, here) refl
        ]
  ]
