-- ===== src/Apps/Images.antt =====
-- pkg/admiral/image_reference.go: the canonical form of a reference to an image.
use Prim.Native.String.{◌++◌ as ◌+++◌, slice}
use text.Mathlib.Text.{find?}
use admirald.Shared.{Bool, not, ◌&&◌, ◌||◌, none, some, String, if◌then◌else◌, ◌==◌}
use admirald.Shared.Text.{trim_space, to_lower, contains}

-- The text before the first slash.
abbrev first_part : String → String
first_part value = elim (find? value "/") [ none ↦ value | some slash ↦ slice value 0 slash ]

abbrev with_registry : String → String
with_registry value =
    let first = first_part value in
    if not (contains first ".") && not (contains first ":") && not (first == "localhost")
    then (if contains value "/" then "docker.io/" +++ value else "docker.io/library/" +++ value)
    else value

abbrev with_tag : String → String
with_tag value = if not (contains value ":") then value +++ ":latest" else value

unfoldable pub canonical_image_reference : String → String
canonical_image_reference text =
    let value = trim_space text in
    if (value == "") || contains value "@sha256:"
    then value
    else with_tag (with_registry (to_lower value))

unfoldable pub image_references_equal : String → String → Bool
image_references_equal actual expected =
    not (canonical_image_reference actual == "")
    && (canonical_image_reference actual == canonical_image_reference expected)
