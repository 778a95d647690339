-- ===== src/Start/Announced.antt =====
-- A process that serves has announced itself.
use casa_os_user_service.Common.{◌≡◌, ap, ◌∙◌, sym, List, ◌++◌}
use casa_os_user_service.Common.Text.{Text, bytes}
use casa_os_user_service.Disk.{FileSystem, Result, ok, err, IsLawful}
use casa_os_user_service.Start.{
  listening, dir_ready, write_address_file, create_routes, address_written, routes_created,
  announce,
}

module _ (fs : FileSystem) (law : IsLawful fs) where
  dir_ready-read :
      (path address : Text) (r : Result (Unit {0}) × fs.Files)
      → (dir_ready fs path address r).0 ≡ ok tt
      → fs.read_file path (dir_ready fs path address r).1 ≡ ok address
  dir_ready-read path address (err e, f) h = cc
  dir_ready-read path address (ok _, f) h = law.write-read path address f h

  pub write_address_file-read :
      (join : Text → Text → Text) (runtime_path filename address : Text) (f : fs.Files)
      → (write_address_file fs join runtime_path filename address f).0 ≡ ok tt
      → fs.read_file
          (join runtime_path filename)
          (write_address_file fs join runtime_path filename address f).1
        ≡ ok address
  unfolding write_address_file
  write_address_file-read join runtime_path filename address f h =
      dir_ready-read (join runtime_path filename) address (fs.mkdir_all runtime_path f) h

  module _ (G : Type 0) (create_route : Text → Text → G → Result (Unit {0}) × G) where
    -- The gateway has all routes, and the file reads as the address.
    pub record IsAnnounced (path target : Text) (g g' : G) (f' : fs.Files) (paths : List Text)
        : Type 0 where
      pub routed : create_routes G create_route paths target g ≡ (ok tt, g')
      pub addressed : fs.read_file path f' ≡ ok target

    address_written-listening :
        (g g' : G) (f' : fs.Files) (r : Result (Unit {0}) × fs.Files)
        → address_written G create_route fs g r ≡ listening g' f'
        → (g ≡ g') × (r ≡ (ok tt, f'))
    address_written-listening g g' f' (err e, f) h = cc
    address_written-listening g g' f' (ok _, f) h = (cc, cc)

    routes_created-listening :
        (write : G → Result (Unit {0}) × fs.Files) (f : fs.Files) (g' : G) (f' : fs.Files)
        (r : Result (Unit {0}) × G)
        → routes_created G create_route fs write f r ≡ listening g' f'
        → (r ≡ (ok tt, g')) × (write g' ≡ (ok tt, f'))
    routes_created-listening write f g' f' (err e, g) h = cc
    routes_created-listening write f g' f' (ok _, g) h =
        let (same, written) = address_written-listening g g' f' (write g) h in
        (ap (λ (x : G). (ok tt, x)) same, ap write (sym same) ∙ written)

    -- A process that goes on to listen has had every route created at the gateway, one after the
    -- other, and its address file reads as the address that the routes lead to.
    pub announce-IsAnnounced :
        (join : Text → Text → Text) (runtime_path filename address : Text) (paths : List Text)
        (g g' : G) (f f' : fs.Files)
        → announce G create_route fs join runtime_path filename address paths g f ≡ listening g' f'
        → IsAnnounced (join runtime_path filename) (bytes "http://" ++ address) g g' f' paths
    unfolding announce
    announce-IsAnnounced join runtime_path filename address paths g g' f f' h =
        let target = bytes "http://" ++ address in
        let (routed, written) =
          routes_created-listening (λ _. write_address_file fs join runtime_path filename target f)
            f g' f' (create_routes G create_route paths target g) h in
        record {
          routed = routed;
          addressed =
              ap
                (λ (r : Result (Unit {0}) × fs.Files).
                  fs.read_file (join runtime_path filename) r.1)
                (sym written)
              ∙ write_address_file-read join runtime_path filename target f
                  (ap (λ (r : Result (Unit {0}) × fs.Files). r.0) written);
        }
