-- ===== src/Logs/Paths.antt =====
-- The access log has the path of a request, and not its query.
use casa_os_user_service.Common.{
  ℕ, ◌+◌, ◌≡◌, ◌<◌, refl, ap, ◌∙◌, sym, true, false, ◌==◌, [], ◌∷◌, ◌++◌, length, drop, All, arith,
  Bool-cases, inl, inr, if◌then◌else◌,
}
use casa_os_user_service.Common.Text.{Text, bytes}
use casa_os_user_service.Disk.{has_prefix}
use mathlib.Core.List.{append-nil}
use casa_os_user_service.Logs.{replace_first, uri_field, path_field, access_log_format}

-- How often a text stands in another.
abbrev pub occurrences : Text → Text → ℕ
occurrences [] tag = if has_prefix [] tag then 1 else 0
occurrences (c ∷ s) tag = (if has_prefix (c ∷ s) tag then 1 else 0) + occurrences s tag

has_prefix-append :
    (s t tag : Text) (c : ℕ)
    → All (λ x. (c == x) ≡ false) tag
    → has_prefix (s ++ c ∷ t) tag ≡ has_prefix s tag
unfolding has_prefix
has_prefix-append [] t [] c h = refl
has_prefix-append [] t (x ∷ tag) c (h, hs) = rw h refl
has_prefix-append (a ∷ s) t [] c h = refl
has_prefix-append (a ∷ s) t (x ∷ tag) c (h, hs) = rw (has_prefix-append s t tag c hs) refl

-- A byte that the tag does not have separates its occurrences.
occurrences-append :
    (s t tag : Text) (c : ℕ)
    → All (λ x. (c == x) ≡ false) tag
    → occurrences (s ++ c ∷ t) tag ≡ occurrences s tag + occurrences t tag
occurrences-append [] t tag c h = rw (has_prefix-append [] t tag c h) refl
occurrences-append (a ∷ s) t tag c h =
    rw (has_prefix-append (a ∷ s) t tag c h, occurrences-append s t tag c h) (omega arith)

eq_of_test : (c x : ℕ) → (c == x) ≡ true → c ≡ x
eq_of_test c x e = ground arith

has_prefix-eq : (s old : Text) → has_prefix s old ≡ true → s ≡ old ++ drop (length old) s
unfolding has_prefix
has_prefix-eq s [] h = refl
has_prefix-eq [] (x ∷ old) h = cc
has_prefix-eq (c ∷ s) (x ∷ old) h = elim (Bool-cases (c == x)) [
  | inl e ↦ let rest = has_prefix-eq s old (rw e at h) in cc (rest, eq_of_test c x e)
  | inr e ↦ cc (rw e at h)
]

-- The first occurrence is replaced, if there is one.
pub record Replaced (s old new : Text) : Type 0 where
  pub before : Text
  pub after : Text
  pub was : s ≡ before ++ (old ++ after)
  pub is : replace_first s old new ≡ before ++ (new ++ after)

replace_first-cons :
    (c : ℕ) (s old new : Text)
    → has_prefix (c ∷ s) old ≡ false
    → replace_first (c ∷ s) old new ≡ c ∷ replace_first s old new
unfolding replace_first
replace_first-cons c s old new e = rw e refl

replace_first-Replaced : (s old new : Text) → 0 < occurrences s old → Replaced s old new
unfolding replace_first has_prefix
replace_first-Replaced [] [] new h = record {
  before = [];
  after = [];
  was = refl;
  is = sym (append-nil new);
}
replace_first-Replaced [] (x ∷ old) new h = absurd (omega (arith, h))
replace_first-Replaced (c ∷ s) old new h = elim (Bool-cases (has_prefix (c ∷ s) old)) [
  | inl e ↦ record {
    before = [];
    after = drop (length old) (c ∷ s);
    was = has_prefix-eq (c ∷ s) old e;
    is = rw e refl;
  }
  | inr e ↦
      let rest = replace_first-Replaced s old new (omega (arith, rw e at h)) in
      record {
        before = c ∷ rest.before;
        after = rest.after;
        was = ap (λ t. c ∷ t) rest.was;
        is = replace_first-cons c s old new e ∙ ap (λ t. c ∷ t) rest.is;
      }
]

abbrev pub uri_tag : Text
uri_tag = bytes "${uri}"

abbrev pub path_tag : Text
path_tag = bytes "${path}"

-- A field in quotes, between two texts.
occurrences-quoted :
    (a field b tag : Text)
    → All (λ x. (b'"' == x) ≡ false) tag
    → occurrences (a ++ (b'"' ∷ (field ++ b'"' ∷ b))) tag
      ≡ occurrences a tag + (occurrences field tag + occurrences b tag)
occurrences-quoted a field b tag h =
    rw (occurrences-append a (field ++ b'"' ∷ b) tag b'"' h, occurrences-append field b tag b'"' h)
      refl

uri_field-counts :
    (a b : Text)
    → (occurrences (a ++ (uri_field ++ b)) uri_tag
        ≡ occurrences a uri_tag + (1 + occurrences b uri_tag))
      × (occurrences (a ++ (uri_field ++ b)) path_tag
          ≡ occurrences a path_tag + (0 + occurrences b path_tag))
unfolding has_prefix
uri_field-counts a b = (
  occurrences-quoted a (bytes "uri\":\"${uri}") b uri_tag
      (refl, (refl, (refl, (refl, (refl, (refl, tt)))))),
  occurrences-quoted a (bytes "uri\":\"${uri}") b path_tag
      (refl, (refl, (refl, (refl, (refl, (refl, (refl, tt))))))),
)

path_field-counts :
    (a b : Text)
    → (occurrences (a ++ (path_field ++ b)) uri_tag
        ≡ occurrences a uri_tag + (0 + occurrences b uri_tag))
      × (occurrences (a ++ (path_field ++ b)) path_tag
          ≡ occurrences a path_tag + (1 + occurrences b path_tag))
unfolding has_prefix
path_field-counts a b = (
  occurrences-quoted a (bytes "path\":\"${path}") b uri_tag
      (refl, (refl, (refl, (refl, (refl, (refl, tt)))))),
  occurrences-quoted a (bytes "path\":\"${path}") b path_tag
      (refl, (refl, (refl, (refl, (refl, (refl, (refl, tt))))))),
)

-- Where the default format of the access log has the field of the URI, and no other place for the
-- URI, the format of the service has no place for it at all, and one place more for the path.
pub access_log_format-occurrences :
    (default : Text)
    → 0 < occurrences default uri_field
    → occurrences default uri_tag ≡ 1
    → (occurrences (access_log_format default) uri_tag ≡ 0)
      × (occurrences (access_log_format default) path_tag ≡ occurrences default path_tag + 1)
unfolding access_log_format
access_log_format-occurrences default h once =
    let r = replace_first-Replaced default uri_field path_field h in
    let u = uri_field-counts r.before r.after in
    let p = path_field-counts r.before r.after in
    (
      ap (λ t. occurrences t uri_tag) r.is
          ∙ omega (arith, once, ap (λ t. occurrences t uri_tag) r.was, u, p),
      ap (λ t. occurrences t path_tag) r.is
          ∙ omega (arith, ap (λ t. occurrences t path_tag) r.was, u, p),
    )
