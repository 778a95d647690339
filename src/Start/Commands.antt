-- ===== src/Start/Commands.antt =====
-- What the start comes to, and when the registration at the message bus ends.
use casa_os_user_service.Common.{
  ℕ, zero, suc, ◌+◌, ◌≤◌, ◌<◌, ◌≡◌, ◌⊎◌, refl, true, false, List, ltb, arith, Bool-cases, inl, inr,
}
use casa_os_user_service.Common.Text.{Text}
use casa_os_user_service.Disk.{Result, ok, err}
use casa_os_user_service.Reset.{reset_user}
use casa_os_user_service.Route.{Deps, World, Published}
use casa_os_user_service.Route.FirstAdmin.{
  AdminError, AdminResult, created, refused, Credentials, bootstrap_first_admin,
}
use casa_os_user_service.Start.{
  Flags, Started, version_printed, not_created, not_reset, administrator, credentials, serving,
  bootstrapped, has_reset, start, is_registered, register_event_types, register_rounds,
}

module _ (d : Deps) where
  -- The name of the command that the flags give, with what it came to.
  pub data Ran (salt : Text) (draws : List ℕ) (given : Credentials) (flags : Flags) (w : World d)
      : Started d → Type 0 where
    version : flags.version ≡ true → Ran salt draws given flags w version_printed
    bootstrap :
        (name : Text) (w' : World d)
        → flags.version ≡ false
        → flags.bootstrap_admin ≡ true
        → bootstrap_first_admin d salt given w ≡ (created name, w')
        → Ran salt draws given flags w (administrator name w')
    bootstrap_failed :
        (e : AdminError) (w' : World d)
        → flags.version ≡ false
        → flags.bootstrap_admin ≡ true
        → bootstrap_first_admin d salt given w ≡ (refused e, w')
        → Ran salt draws given flags w (not_created e w')
    reset :
        (printed : Text × Text) (s : d.gorm.State)
        → flags.version ≡ false
        → flags.bootstrap_admin ≡ false
        → flags.reset ≡ true
        → reset_user d salt draws flags.user w.db ≡ (ok printed, s)
        → Ran salt draws given flags w (credentials printed (record w { db = s }))
    reset_failed :
        (e : Text) (s : d.gorm.State)
        → flags.version ≡ false
        → flags.bootstrap_admin ≡ false
        → flags.reset ≡ true
        → reset_user d salt draws flags.user w.db ≡ (err e, s)
        → Ran salt draws given flags w (not_reset e (record w { db = s }))
    service :
        flags.version ≡ false
        → flags.bootstrap_admin ≡ false
        → flags.reset ≡ false
        → Ran salt draws given flags w (serving w)

  bootstrapped-Ran :
      (salt : Text) (draws : List ℕ) (given : Credentials) (flags : Flags) (w : World d)
      (r : AdminResult Text × World d)
      → flags.version ≡ false
      → flags.bootstrap_admin ≡ true
      → bootstrap_first_admin d salt given w ≡ r
      → Ran salt draws given flags w (bootstrapped d r)
  bootstrapped-Ran salt draws given flags w (created name, w') v b e = bootstrap name w' v b e
  bootstrapped-Ran salt draws given flags w (refused why, w') v b e = bootstrap_failed why w' v b e

  has_reset-Ran :
      (salt : Text) (draws : List ℕ) (given : Credentials) (flags : Flags) (w : World d)
      (r : Result (Text × Text) × d.gorm.State)
      → flags.version ≡ false
      → flags.bootstrap_admin ≡ false
      → flags.reset ≡ true
      → reset_user d salt draws flags.user w.db ≡ r
      → Ran salt draws given flags w (has_reset d w r)
  has_reset-Ran salt draws given flags w (ok printed, s) v b f e = reset printed s v b f e
  has_reset-Ran salt draws given flags w (err why, s) v b f e = reset_failed why s v b f e

  -- `-bootstrap-admin` and `-ru` are commands: a process with one of them ends by what the command
  -- came to and never serves, the first before the second, and `-v` before both. Only with none of
  -- them does the process go on to serve, and then nothing has been done.
  pub start-Ran :
      (salt : Text) (draws : List ℕ) (given : Credentials) (flags : Flags) (w : World d)
      → Ran salt draws given flags w (start d salt draws given flags w)
  unfolding start
  start-Ran salt draws given flags w = elim (Bool-cases flags.version) [
    | inl v ↦ simp (v) (version v)
    | inr v ↦ elim (Bool-cases flags.bootstrap_admin) [
      | inl b ↦ simp (v, b) (bootstrapped-Ran salt draws given flags w _ v b refl)
      | inr b ↦ elim (Bool-cases flags.reset) [
        | inl f ↦ simp (v, b, f) (has_reset-Ran salt draws given flags w _ v b f refl)
        | inr f ↦ simp (v, b, f) (service v b f)
      ]
    ]
  ]

-- The rounds from one on, up to a limit, that were made in the end: all but the last failed, and
-- the last one registered the events, unless the limit was met.
pub record Rounds (bus : ℕ → Published) (first made limit : ℕ) : Type 0 where
  pub at_most : made ≤ limit
  pub failed : (k : ℕ) → first ≤ k → suc k < made → is_registered (bus k) ≡ false
  pub last : (made ≡ limit) ⊎ ((k : ℕ) × (made ≡ suc k) × (is_registered (bus k) ≡ true))

register_event_types-from :
    (n first limit : ℕ) (bus : ℕ → Published)
    → first + n ≡ limit
    → Rounds bus first (register_event_types n first bus) limit
unfolding register_event_types
register_event_types-from zero first limit bus sum = record {
  at_most = omega (arith, sum);
  failed = λ k le lt. absurd (omega (arith, sum));
  last = inl (omega (arith, sum));
}
register_event_types-from (suc n) first limit bus sum =
    let rest = register_event_types-from n (suc first) limit bus (omega (arith, sum)) in
    elim (Bool-cases (is_registered (bus first))) [
      | inl yes' ↦ rw yes' (record {
        at_most = omega (arith, sum);
        failed = λ k le lt. absurd (omega (arith, le, lt));
        last = inr (first, refl, yes');
      })
      | inr no' ↦ rw no' (record {
        at_most = rest.at_most;
        failed = λ k le lt. elim (eq_or_lt first k le) [
          | inl same ↦ rw⁻¹ same no'
          | inr later ↦ rest.failed k later lt
        ];
        last = rest.last;
      })
    ]
  where
    eq_or_lt : (a b : ℕ) → a ≤ b → (a ≡ b) ⊎ (suc a ≤ b)
    eq_or_lt a b le = elim (Bool-cases (ltb a b)) [
      | inl lt ↦ inr (ground arith)
      | inr ge ↦ inl (ground arith)
    ]

-- The registration ends after at most ten rounds: all rounds but the last failed, and the last one
-- was answered by status 200 unless it was the tenth.
pub register_event_types-Rounds :
    (bus : ℕ → Published) → Rounds bus 0 (register_event_types register_rounds 0 bus) 10
register_event_types-Rounds bus = register_event_types-from 10 0 10 bus refl
