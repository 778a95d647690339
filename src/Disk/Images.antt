-- ===== src/Disk/Images.antt =====
-- pkg/utils/file/image.go: which files are taken for images.
use casa_os_user_service.Common.{
  ℕ, zero, suc, ◌-◌, Option, none, some, List, [], ◌∷◌, ◌++◌, find, take, drop, length, map,
}
use casa_os_user_service.Common.Text.{Text, bytes}
use casa_os_user_service.Disk.{Result, ok, err, FileSystem, contains, get_ext}
use Prim.Native.String.{String}

abbrev pub image_ext_names : List String
image_ext_names =
    "ase" ∷ "art" ∷ "bmp" ∷ "blp" ∷ "cd5" ∷ "cit" ∷ "cpt" ∷ "cr2" ∷ "cut" ∷ "dds" ∷ "dib" ∷ "djvu"
    ∷ "egt" ∷ "exif" ∷ "gif" ∷ "gpl" ∷ "grf" ∷ "icns" ∷ "ico" ∷ "iff" ∷ "jng" ∷ "jpeg" ∷ "jpg"
    ∷ "jfif" ∷ "jp2" ∷ "jps" ∷ "lbm" ∷ "max" ∷ "miff" ∷ "mng" ∷ "msp" ∷ "nitf" ∷ "ota" ∷ "pbm"
    ∷ "pc1" ∷ "pc2" ∷ "pc3" ∷ "pcf" ∷ "pcx" ∷ "pdn" ∷ "pgm" ∷ "PI1" ∷ "PI2" ∷ "PI3" ∷ "pict" ∷ "pct"
    ∷ "pnm" ∷ "pns" ∷ "ppm" ∷ "psb" ∷ "psd" ∷ "pdd" ∷ "psp" ∷ "px" ∷ "pxm" ∷ "pxr" ∷ "qfx" ∷ "raw"
    ∷ "rle" ∷ "sct" ∷ "sgi" ∷ "rgb" ∷ "int" ∷ "bw" ∷ "tga" ∷ "tiff" ∷ "tif" ∷ "vtf" ∷ "xbm" ∷ "xcf"
    ∷ "xpm" ∷ "3dv" ∷ "amf" ∷ "ai" ∷ "awg" ∷ "cgm" ∷ "cdr" ∷ "cmx" ∷ "dxf" ∷ "e2d" ∷ "egt" ∷ "eps"
    ∷ "fs" ∷ "gbr" ∷ "odg" ∷ "svg" ∷ "stl" ∷ "vrml" ∷ "x3d" ∷ "sxd" ∷ "v2d" ∷ "vnd" ∷ "wmf" ∷ "emf"
    ∷ "art" ∷ "xar" ∷ "png" ∷ "webp" ∷ "jxr" ∷ "hdp" ∷ "wdp" ∷ "cur" ∷ "ecw" ∷ "iff" ∷ "lbm"
    ∷ "liff" ∷ "nrrd" ∷ "pam" ∷ "pcx" ∷ "pgf" ∷ "sgi" ∷ "rgb" ∷ "rgba" ∷ "bw" ∷ "int" ∷ "inta"
    ∷ "sid" ∷ "ras" ∷ "sun" ∷ "tga" ∷ []

unfoldable pub image_ext_array : List Text
image_ext_array = map bytes image_ext_names

abbrev pub or_invalid : Option Text → Result Text
or_invalid none = err (bytes "invalid image type")
or_invalid (some ext) = ok ext

abbrev pub zeros : ℕ → Text
zeros zero = []
zeros (suc n) = 0 ∷ zeros n

-- The buffer of 512 bytes after one Read: what was read, and zeros.
abbrev pub buffer : Text → Text
buffer t = take 512 t ++ zeros (512 - length t)

-- An empty file cannot be read from.
abbrev pub image_type : FileSystem → Result Text → Result Text
image_type fs (err e) = err e
image_type fs (ok []) = err (bytes "EOF")
image_type fs (ok (c ∷ t)) = ok (drop 6 (fs.detect_content_type (buffer (c ∷ t))))

abbrev pub ext_of_type : Result Text → Result Text
ext_of_type (err e) = err e
ext_of_type (ok name) = or_invalid (find (λ ext. contains ext name) image_ext_array)

unfoldable pub get_image_ext : (fs : FileSystem) → Text → fs.Files → Result Text
unfolding image_ext_array
get_image_ext fs path f = ext_of_type (image_type fs (fs.read_file path f))

unfoldable pub get_image_ext_by_name : Text → Result Text
unfolding image_ext_array get_ext
get_image_ext_by_name path = or_invalid (find (λ ext. contains (get_ext path) ext) image_ext_array)
