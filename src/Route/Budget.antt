-- ===== src/Route/Budget.antt =====
-- The session tokens, and the second-factor budget: each user has one of their own.
use casa_os_user_service.Common.{
  ℕ, ◌+◌, ◌≡◌, ◌≢◌, refl, List, [], ◌∷◌, ◌==◌, ==_refl, if◌then◌else◌, arith,
}
use casa_os_user_service.Users.Database.{UserDbModel}
use casa_os_user_service.Route.{
  Deps, World, ok, VerifyInformation, access_life, session, issue_tokens, user_limiter, put_limiter,
  allow_user,
}

module _ (d : Deps) where
  -- The reply is a session of this user, with both tokens signed for it and no password in it.
  pub record Session (now : ℕ) (user : UserDbModel) (t : VerifyInformation) (u : UserDbModel)
      : Type 0 where
    pub expiry : t.expires_at ≡ now + access_life d
    pub bare : u ≡ record user { password = [] }
    pub access : d.jwt.get_access_token user.username d.private_key user.id now ≡ ok t.access_token
    pub refresh :
        d.jwt.get_refresh_token user.username d.private_key user.id now ≡ ok t.refresh_token

  pub issue_tokens-Session :
      (now : ℕ) (user : UserDbModel) (t : VerifyInformation) (u : UserDbModel)
      → (issue_tokens d now user).body ≡ session t u
      → Session now user t u
  unfolding issue_tokens
  issue_tokens-Session now user t u h = ground arith

  user_limiter-put_limiter :
      (i j : ℕ) (l : d.rate.Limiter) (m : List (ℕ × d.rate.Limiter))
      → user_limiter d j (put_limiter d i l m) ≡ (if i == j then l else user_limiter d j m)
  unfolding user_limiter put_limiter
  user_limiter-put_limiter i j l [] = ground arith
  user_limiter-put_limiter i j l ((k, q) ∷ m) = ground (arith, user_limiter-put_limiter i j l m)

  -- An attempt is allowed or not by the limiter of its user alone; that limiter is left as `Allow`
  -- left it, those of the other users are as they were, and nothing else of the world changes.
  pub allow_user_lem :
      (i j now : ℕ) (w : World d)
      → i ≢ j
      → let r = allow_user d i now w in
        let taken = d.rate.allow (user_limiter d i w.user_limiters) now in
        (r.0 ≡ taken.0)
        × (user_limiter d i r.1.user_limiters ≡ taken.1)
        × (user_limiter d j r.1.user_limiters ≡ user_limiter d j w.user_limiters)
        × (r.1 ≡ record w { user_limiters = r.1.user_limiters })
  unfolding allow_user
  allow_user_lem i j now w ne =
      let taken = d.rate.allow (user_limiter d i w.user_limiters) now in
      (
        refl,
        rw (user_limiter-put_limiter i i taken.1 w.user_limiters, ==_refl i),
        rw (user_limiter-put_limiter i j taken.1 w.user_limiters) (ground arith),
        refl,
      )
