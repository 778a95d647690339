-- ===== src/Server/Reached.antt =====
-- Whatever a handler does to the accounts, it does by statements of service/user.go.
pub mod Factors
pub mod Handlers
pub mod Requests
pub mod Runs
use casa_os_user_service.Common.{
  ◌≡◌, refl, ap, ◌∙◌, Bool, true, false, List, [], ◌∷◌, ◌++◌, All, if◌then◌else◌,
}
use casa_os_user_service.Common.Text.{Text}
use casa_os_user_service.Users.Statements.{Statement, perform, run, IsAnonymous}
use casa_os_user_service.Users.Database.{Gorm}
use casa_os_user_service.Route.{Deps, World, Response}

All-append :
    (g : Gorm) (xs ys : List Statement)
    → All (IsAnonymous g) xs
    → All (IsAnonymous g) ys
    → All (IsAnonymous g) (xs ++ ys)
All-append g [] ys h k = k
All-append g (x ∷ xs) ys (h, hs) k = (h, All-append g xs ys hs k)

run-append :
    (g : Gorm) (xs ys : List Statement) (s : g.State) → run g (xs ++ ys) s ≡ run g ys (run g xs s)
unfolding run
run-append g [] ys s = refl
run-append g (x ∷ xs) ys s = run-append g xs ys (perform g x s)

module _ (d : Deps) where
  -- The table is reached by statements, in which accounts are created with no id of their own.
  pub record Reaches (s s' : d.gorm.State) : Type 0 where
    pub statements : List Statement
    pub anonymous : All (IsAnonymous d.gorm) statements
    pub reached : run d.gorm statements s ≡ s'

  pub stays : (s : d.gorm.State) → Reaches s s
  unfolding run
  stays s = record { statements = []; anonymous = tt; reached = refl }

  pub performs :
      (a : Statement) (s : d.gorm.State) → IsAnonymous d.gorm a → Reaches s (perform d.gorm a s)
  unfolding run
  performs a s h = record { statements = a ∷ []; anonymous = (h, tt); reached = refl }

  pub then-Reaches : (s t u : d.gorm.State) → Reaches s t → Reaches t u → Reaches s u
  then-Reaches s t u p q = record {
    statements = p.statements ++ q.statements;
    anonymous = All-append d.gorm p.statements q.statements p.anonymous q.anonymous;
    reached =
        run-append d.gorm p.statements q.statements s
        ∙ ap (run d.gorm q.statements) p.reached
        ∙ q.reached;
  }

  -- The outcome of a handler, with the table reached by statements.
  pub record Acts (s : d.gorm.State) (r : Response × World d) : Type 0 where
    pub acts : Reaches s r.1.db

  pub if-Acts :
      (s : d.gorm.State) (b : Bool) (x y : Response × World d)
      → Acts s x
      → Acts s y
      → Acts s (if b then x else y)
  if-Acts s true x y h k = h
  if-Acts s false x y h k = k

  pub answers : (w : World d) (answer : Response) → Acts w.db (answer, w)
  answers w answer = record { acts = stays w.db }
