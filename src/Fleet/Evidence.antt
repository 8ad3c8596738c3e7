-- ===== src/Fleet/Evidence.antt =====
-- validateRestartImageEvidence of internal/api/handlers_fleet.go: a restart succeeds only if the node shows
-- that it runs the images that were asked for. A map is the list of its entries; the JSON of the callback
-- and the YAML of the application arrive decoded, or as `none` where that fails.
use mathlib.Core.Path.{subst}
use text.Mathlib.Text.{starts_with}
use admirald.Shared.{
  ◌≡◌, ◌≢◌, ◌↔◌, refl, sym, Bool, true, false, not, Option, none, some, String, List, [], ◌∷◌, map,
  keep, All, if◌then◌else◌, ◌==◌, some_injective, not-false, >>=-eq-ok, errorf, Result, ok, err,
  ◌>>◌, ◌>>=◌, fail_if, fail_if-ok, >>-ok,
}
use admirald.Shared.Text.{trim_space}
use admirald.Apps.Images.{image_references_equal}

pub record RestartImageEvidence : Type 0 where
  pub image_ref : String
  pub image_id : String
  pub container_id : String

-- A service of an application: its name, its image and its setup command.
pub record ServiceImage : Type 0 where
  pub name : String
  pub image : String
  pub setup_command : String

abbrev pub evidence_of : String → List (String × RestartImageEvidence) → Option RestartImageEvidence
evidence_of name [] = none
evidence_of name (e ∷ es) = let rest = evidence_of name es in if e.0 == name then some e.1 else rest

-- One expected image, with what the node reports of its service.
unfoldable pub check_image : String → String → Option RestartImageEvidence → Result (Unit {0})
check_image name expected none =
    err (errorf "Fleet did not verify image for service %q" (name ∷ []))
check_image name expected (some e) =
    fail_if (not (image_references_equal e.image_ref expected))
      "service %q started with image %q, expected %q" (name ∷ e.image_ref ∷ expected ∷ [])
    >> (fail_if (not (starts_with (trim_space e.image_id) "sha256:"))
          "service %q did not report an immutable image ID" (name ∷ [])
        >> fail_if (trim_space e.container_id == "") "service %q did not report a container ID"
            (name ∷ []))

unfoldable pub check_images :
    List (String × RestartImageEvidence) → List (String × String) → Result (Unit {0})
check_images images [] = ok tt
check_images images (x ∷ xs) =
    let rest = check_images images xs in check_image x.0 x.1 (evidence_of x.0 images) >> rest

-- The images of the services that have no setup command.
abbrev pub images_of_definition : List ServiceImage → List (String × String)
images_of_definition services =
    map (λ s. (s.name, s.image)) (keep (λ s. trim_space s.setup_command == "") services)

-- The images that the operation's metadata asks for, or those of the application's definition, which is
-- `none` where it is missing.
unfoldable pub expected_images :
    List (String × String)
    → String
    → Option (Option (List ServiceImage))
    → Result (List (String × String))
expected_images (x ∷ xs) app_name definition = ok (x ∷ xs)
expected_images [] app_name none =
    err (errorf "app definition %q not found for image verification" (app_name ∷ []))
expected_images [] app_name (some none) =
    err (errorf "parse app definition for image verification: %w" [])
expected_images [] app_name (some (some services)) = ok (images_of_definition services)

-- Whether the instance is there and needs a restart.
abbrev restarts : Option Bool → Bool
restarts none = false
restarts (some needed) = needed

abbrev compare_images :
    Option (List (String × RestartImageEvidence))
    → Result (List (String × String))
    → Result (Unit {0})
compare_images none expected = err (errorf "parse image verification metadata: %w" [])
compare_images (some []) expected =
    err (errorf "Fleet did not provide image verification metadata" [])
compare_images (some (i ∷ is)) expected = expected >>= (λ wanted. check_images (i ∷ is) wanted)

-- `need_restarting` is `none` for an instance that is gone.
unfoldable pub validate_restart_image_evidence :
    Option Bool
    → Option (List (String × RestartImageEvidence))
    → List (String × String)
    → String
    → Option (Option (List ServiceImage))
    → Result (Unit {0})
validate_restart_image_evidence need_restarting callback asked app_name definition =
    if not (restarts need_restarting)
    then ok tt
    else compare_images callback (expected_images asked app_name definition)

-- The report shows that a service runs the image that is expected.
pub record IsShown (expected : String) (found : Option RestartImageEvidence) : Type 0 where
  pub evidence : RestartImageEvidence
  pub given : found ≡ some evidence
  pub same_image : image_references_equal evidence.image_ref expected ≡ true
  pub immutable : starts_with (trim_space evidence.image_id) "sha256:" ≡ true
  pub in_container : trim_space evidence.container_id == "" ≡ false

fail_if-last :
    (b : Bool) (f : String) (args : List String) → (fail_if b f args ≡ ok tt) ↔ (b ≡ false)
fail_if-last true f args = ((λ h. cc), (λ h. cc))
fail_if-last false f args = ((λ h. refl), (λ h. refl))

check_image-IsShown :
    (name expected : String) (found : Option RestartImageEvidence)
    → (check_image name expected found ≡ ok tt) ↔ IsShown expected found
unfolding check_image
check_image-IsShown name expected none = ((λ h. cc), (λ s. let g = s.given in cc))
check_image-IsShown name expected (some e) =
    let same =
      fail_if-ok (not (image_references_equal e.image_ref expected))
        "service %q started with image %q, expected %q" (name ∷ e.image_ref ∷ expected ∷ []) in
    let digest =
      fail_if-ok (not (starts_with (trim_space e.image_id) "sha256:"))
        "service %q did not report an immutable image ID" (name ∷ []) in
    let container =
      fail_if-last (trim_space e.container_id == "") "service %q did not report a container ID"
        (name ∷ []) in
    (
      λ h.
          let (a, h1) = (same _).0 h in
          let (b, h2) = (digest _).0 h1 in
          record {
            evidence = e;
            given = refl;
            same_image = not-false a;
            immutable = not-false b;
            in_container = container.0 h2;
          },
      λ s.
          let is_e = some_injective e s.evidence s.given in
          let a =
            subst (λ x. image_references_equal x.image_ref expected ≡ true) (sym is_e)
              s.same_image in
          let b =
            subst (λ x. starts_with (trim_space x.image_id) "sha256:" ≡ true) (sym is_e)
              s.immutable in
          let c = subst (λ x. trim_space x.container_id == "" ≡ false) (sym is_e) s.in_container in
          (same _).1 (rw a refl, (digest _).1 (rw b refl, container.1 c)),
    )

check_images-All :
    (images : List (String × RestartImageEvidence)) (wanted : List (String × String))
    → (check_images images wanted ≡ ok tt) ↔ All (λ x. IsShown x.1 (evidence_of x.0 images)) wanted
unfolding check_images
check_images-All images [] = ((λ h. tt), (λ h. refl))
check_images-All images (x ∷ xs) =
    let first = check_image-IsShown x.0 x.1 (evidence_of x.0 images) in
    let rest = check_images-All images xs in
    let both = >>-ok (check_image x.0 x.1 (evidence_of x.0 images)) (check_images images xs) in
    (
      λ h. let (h1, h2) = both.0 h in (first.0 h1, rest.0 h2),
      λ all. both.1 (first.1 all.0, rest.1 all.1),
    )

-- All expected images are shown by a callback that names images.
pub record IsVerified (callback : Option (List (String × RestartImageEvidence)))
    (asked : List (String × String)) (app_name : String)
    (definition : Option (Option (List ServiceImage))) : Type 0 where
  pub images : List (String × RestartImageEvidence)
  pub wanted : List (String × String)
  pub reported : callback ≡ some images
  pub some_images : images ≢ []
  pub expected : expected_images asked app_name definition ≡ ok wanted
  pub shown : All (λ x. IsShown x.1 (evidence_of x.0 images)) wanted

compare_images-IsVerified :
    (callback : Option (List (String × RestartImageEvidence))) (asked : List (String × String))
    (app_name : String) (definition : Option (Option (List ServiceImage)))
    → (compare_images callback (expected_images asked app_name definition) ≡ ok tt)
      ↔ IsVerified callback asked app_name definition
compare_images-IsVerified none asked app_name definition =
    ((λ h. cc), (λ v. let r = v.reported in cc))
compare_images-IsVerified (some []) asked app_name definition =
    ((λ h. cc), (λ v. absurd (v.some_images (sym (some_injective [] v.images v.reported)))))
compare_images-IsVerified (some (i ∷ is)) asked app_name definition = (
  λ h.
      let (wanted, expected, checked) = >>=-eq-ok (expected_images asked app_name definition) _ h in
      record {
        images = i ∷ is;
        wanted = wanted;
        reported = refl;
        some_images = λ e. cc;
        expected = expected;
        shown = (check_images-All (i ∷ is) wanted).0 checked;
      },
  λ v.
      let same = sym (some_injective (i ∷ is) v.images v.reported) in
      let checked = (check_images-All v.images v.wanted).1 v.shown in
      rw (v.expected) (subst (λ l. check_images l v.wanted ≡ ok tt) same checked),
)

-- For an instance that needs a restart, the evidence is accepted exactly if the callback can be read and
-- names images, the expected images are known, and for each of them the service reports a reference that
-- `ImageReferencesEqual` finds equal to the expected one, an image ID that starts with sha256:, and a
-- container. References to the same image whose canonical forms differ for that function, as those of
-- nginx:1.25 and docker.io/library/nginx:1.25 do, are not equal in this sense.
pub validate_restart_image_evidence-IsVerified :
    (callback : Option (List (String × RestartImageEvidence))) (asked : List (String × String))
    (app_name : String) (definition : Option (Option (List ServiceImage)))
    → (validate_restart_image_evidence (some true) callback asked app_name definition ≡ ok tt)
      ↔ IsVerified callback asked app_name definition
unfolding validate_restart_image_evidence
validate_restart_image_evidence-IsVerified = compare_images-IsVerified
