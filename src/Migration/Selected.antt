-- ===== src/Migration/Selected.antt =====
-- Which migration runs, and when.
use casa_os_user_service.Common.{
  ◌≡◌, ◌⊎◌, refl, Bool, true, false, Option, none, some, List, [], ◌∷◌, subst, Bool-cases, inl, inr,
}
use casa_os_user_service.Disk.{Result, ok, err}
use casa_os_user_service.Migration.{
  MigrationTool, Flags, migrated, tool_asked, selected_migration_tool, after_post, after_migrate,
  after_pre, with_tool, running_checked, main,
}

module _ (S : Type 0) where
  -- The tool is needed, and those before it are not.
  pub data FirstNeeded (s : S) (tool : MigrationTool S) : List (MigrationTool S) → Type 0 where
    here :
        (tools : List (MigrationTool S))
        → tool.is_migration_needed s ≡ ok true
        → FirstNeeded s tool (tool ∷ tools)
    later :
        (t : MigrationTool S) (tools : List (MigrationTool S))
        → t.is_migration_needed s ≡ ok false
        → FirstNeeded s tool tools
        → FirstNeeded s tool (t ∷ tools)

  tool_asked-FirstNeeded :
      (s : S) (t tool : MigrationTool S) (tools : List (MigrationTool S)) (r : Result Bool)
      → t.is_migration_needed s ≡ r
      → (selected_migration_tool S tools s ≡ ok (some tool) → FirstNeeded s tool tools)
      → tool_asked S t r (selected_migration_tool S tools s) ≡ ok (some tool)
      → (t ≡ tool) × (r ≡ ok true) ⊎ FirstNeeded s tool (t ∷ tools)
  tool_asked-FirstNeeded s t tool tools (err e) q ih h = cc
  tool_asked-FirstNeeded s t tool tools (ok true) q ih h = inl (cc, refl)
  tool_asked-FirstNeeded s t tool tools (ok false) q ih h = inr (later t tools q (ih h))

  selected-FirstNeeded :
      (tools : List (MigrationTool S)) (s : S) (tool : MigrationTool S)
      → selected_migration_tool S tools s ≡ ok (some tool)
      → FirstNeeded s tool tools
  unfolding selected_migration_tool
  selected-FirstNeeded [] s tool h = cc
  selected-FirstNeeded (t ∷ tools) s tool h =
      elim (tool_asked-FirstNeeded s t tool tools (t.is_migration_needed s) refl
        (selected-FirstNeeded tools s tool) h) [
          | inl (same, needed) ↦ subst (λ x. FirstNeeded s x (t ∷ tools)) same (here tools needed)
          | inr found ↦ found
        ]

  -- The three parts of a tool that migrated, one after the other.
  pub record Done (tool : MigrationTool S) (s s' : S) : Type 0 where
    pub prepared : (tool.pre_migrate s).0 ≡ ok tt
    pub moved : (tool.migrate (tool.pre_migrate s).1).0 ≡ ok tt
    pub finished : tool.post_migrate (tool.migrate (tool.pre_migrate s).1).1 ≡ (ok tt, s')

  after_post-ok :
      (r : Result (Unit {0}) × S) (s' : S) → after_post S r ≡ migrated s' → r ≡ (ok tt, s')
  after_post-ok (err e, s) s' h = cc
  after_post-ok (ok _, s) s' h = cc

  after_migrate-ok :
      (tool : MigrationTool S) (r : Result (Unit {0}) × S) (s' : S)
      → after_migrate S tool r ≡ migrated s'
      → (r.0 ≡ ok tt) × (tool.post_migrate r.1 ≡ (ok tt, s'))
  after_migrate-ok tool (err e, s) s' h = cc
  after_migrate-ok tool (ok _, s) s' h = (refl, after_post-ok (tool.post_migrate s) s' h)

  after_pre-ok :
      (tool : MigrationTool S) (r : Result (Unit {0}) × S) (s' : S)
      → after_pre S tool r ≡ migrated s'
      → (r.0 ≡ ok tt)
        × ((tool.migrate r.1).0 ≡ ok tt)
        × (tool.post_migrate (tool.migrate r.1).1 ≡ (ok tt, s'))
  after_pre-ok tool (err e, s) s' h = cc
  after_pre-ok tool (ok _, s) s' h =
      let (moved, finished) = after_migrate-ok tool (tool.migrate s) s' h in (refl, moved, finished)

  abbrev pub Selected : List (MigrationTool S) → S → S → Type 0
  Selected tools s s' = (tool : MigrationTool S) × FirstNeeded s tool tools × Done tool s s'

  with_tool-Selected :
      (tools : List (MigrationTool S)) (s s' : S) (r : Result (Option (MigrationTool S)))
      → selected_migration_tool S tools s ≡ r
      → with_tool S s r ≡ migrated s'
      → Selected tools s s'
  with_tool-Selected tools s s' (err e) q h = cc
  with_tool-Selected tools s s' (ok none) q h = cc
  with_tool-Selected tools s s' (ok (some tool)) q h =
      let (prepared, moved, finished) = after_pre-ok tool (tool.pre_migrate s) s' h in
      (
        tool,
        selected-FirstNeeded tools s tool q,
        record { prepared = prepared; moved = moved; finished = finished },
      )

  running_checked-Selected :
      (force : Bool) (running : Result Bool) (tools : List (MigrationTool S)) (s s' : S)
      → running_checked S force running tools s ≡ migrated s'
      → ((force ≡ true) ⊎ (running ≡ ok false)) × Selected tools s s'
  running_checked-Selected true running tools s s' h =
      (inl refl, with_tool-Selected tools s s' (selected_migration_tool S tools s) refl h)
  running_checked-Selected false (err e) tools s s' h = cc
  running_checked-Selected false (ok true) tools s s' h = cc
  running_checked-Selected false (ok false) tools s s' h =
      (inr refl, with_tool-Selected tools s s' (selected_migration_tool S tools s) refl h)

  -- A migration that is reported as done was run by root, with the service stopped or by force, by
  -- the first tool that was needed, and each of its three parts succeeded, one after the other.
  pub main-Selected :
      (flags : Flags) (root : Bool) (running : Result Bool) (tools : List (MigrationTool S))
      (s s' : S)
      → main S flags root running tools s ≡ migrated s'
      → (flags.version ≡ false)
        × (root ≡ true)
        × ((flags.force ≡ true) ⊎ (running ≡ ok false))
        × Selected tools s s'
  unfolding main
  main-Selected flags root running tools s s' h = elim (Bool-cases flags.version) [
    | inl v ↦ cc (rw v at h)
    | inr v ↦ elim (Bool-cases root) [
      | inr r ↦ cc (rw (v, r) at h)
      | inl r ↦
          let (allowed, chosen) =
            running_checked-Selected flags.force running tools s s' (rw (v, r) at h) in
          (v, r, allowed, chosen)
    ]
  ]
