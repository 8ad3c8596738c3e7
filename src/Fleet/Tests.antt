-- ===== src/Fleet/Tests.antt =====
-- A restart with evidence for one image.
use admirald.Shared.{◌≡◌, ◌↔◌, refl, true, false, none, some, String, List, [], ◌∷◌, ok}
use admirald.Shared.Text.{trim_space, to_lower}
use admirald.Apps.Images.{canonical_image_reference, image_references_equal}
use admirald.Fleet.Evidence.{
  RestartImageEvidence, check_image, check_images, expected_images, validate_restart_image_evidence,
  IsVerified, validate_restart_image_evidence-IsVerified,
}

-- The short form of an image is completed, unless it has a tag.
short : canonical_image_reference "Nginx" ≡ "docker.io/library/nginx:latest"
unfolding canonical_image_reference trim_space to_lower
short = refl

tagged : canonical_image_reference "nginx:1.25" ≡ "nginx:1.25"
unfolding canonical_image_reference trim_space to_lower
tagged = refl

-- So what Podman reports for a tagged image of Docker Hub is taken for another image.
tagged_differs : image_references_equal "docker.io/library/nginx:1.25" "nginx:1.25" ≡ false
unfolding image_references_equal canonical_image_reference trim_space to_lower
tagged_differs = refl

abbrev evidence : String → List (String × RestartImageEvidence)
evidence image =
    ("web", record { image_ref = image; image_id = "sha256:ab"; container_id = "c1" }) ∷ []

accepted :
    validate_restart_image_evidence
      (some true)
      (some (evidence "docker.io/library/nginx:latest"))
      (("web", "nginx") ∷ [])
      "wiki"
      none
    ≡ ok tt
unfolding validate_restart_image_evidence expected_images check_images check_image
    image_references_equal canonical_image_reference trim_space to_lower
accepted = refl

validate_restart_image_evidence-IsVerified_example :
    (validate_restart_image_evidence
        (some true)
        (some (evidence "docker.io/library/nginx:latest"))
        (("web", "nginx") ∷ [])
        "wiki"
        none
      ≡ ok tt)
    ↔ IsVerified
        (some (evidence "docker.io/library/nginx:latest"))
        (("web", "nginx") ∷ [])
        "wiki"
        none
validate_restart_image_evidence-IsVerified_example =
    validate_restart_image_evidence-IsVerified (some (evidence "docker.io/library/nginx:latest"))
      (("web", "nginx") ∷ []) "wiki" none
