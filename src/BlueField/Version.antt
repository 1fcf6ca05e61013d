-- ===== src/BlueField/Version.antt =====
-- `extractOCPVersion` of internal/controller/bluefield/image_resolver.go.
use dpf_hcp_bridge_operator.Base.{String, List, [], ◌∷◌, ◌==◌, if◌then◌else◌}
use dpf_hcp_bridge_operator.Base.Text.{sprintf, split, trim_suffix}
use dpf_hcp_bridge_operator.Base.Result.{Result, success, failure}

-- The architecture suffixes, in the order in which they are stripped.
abbrev pub arch_suffixes : List String
arch_suffixes = "-multi" ∷ "-amd64" ∷ "-arm64" ∷ "-ppc64le" ∷ "-s390x" ∷ "-x86_64" ∷ []

unfoldable pub strip_suffixes : List String → String → String
strip_suffixes [] version = version
strip_suffixes (suffix ∷ rest) version = strip_suffixes rest (trim_suffix version suffix)

-- The last of the parts, if there are two or more.
unfoldable pub last_part : List String → Result String String
last_part [] = failure "missing tag separator ':' in image URL"
last_part (x ∷ []) = failure "missing tag separator ':' in image URL"
last_part (x ∷ y ∷ []) = success y
last_part (x ∷ y ∷ z ∷ rest) = last_part (y ∷ z ∷ rest)

unfoldable pub version_of_tag : String → Result String String
version_of_tag tag =
    if tag == ""
    then failure "empty tag in image URL"
    else let version = strip_suffixes arch_suffixes tag in
      if version == ""
      then failure (sprintf ("extracted version is empty after processing tag: " ∷ tag ∷ []))
      else success version

unfoldable pub extract_ocp_version : String → Result String String
extract_ocp_version image = elim (last_part (split b':' image)) [
  | success tag ↦ version_of_tag tag
  | failure text ↦ failure text
]
