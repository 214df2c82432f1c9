-- ===== src/QueueLab/Registry.antt =====
-- PodRegistry of internal/queuelab/podregistry.go: which Pod a name stood for. Both operations run
-- under the registry's lock.
pub mod Agreed
use gpu_platform_control_pla.Base.{
  Bool, true, false, ◌||◌, Option, none, some, List, [], ◌∷◌, ◌++◌, if◌then◌else◌,
}
use gpu_platform_control_pla.Base.Text.{Text, text, text_eq}
use gpu_platform_control_pla.Base.Maps.{Map, lookup, insert}

-- namespace + "/" + name.
unfoldable pub registry_key : Text → Text → Text
registry_key namespace name = namespace ++ (text "/" ++ name)

-- What byName holds under the key after a Pod of this UID was seen.
unfoldable pub noted : Option Text → Text → Text
noted none uid = uid
noted (some seen) uid = if text_eq seen uid then seen else []

unfoldable pub note : Map Text → Text → Text → Text → Map Text
unfolding registry_key noted
note by_name namespace name uid =
    if text_eq name [] || text_eq uid []
    then by_name
    else insert (registry_key namespace name)
        (noted (lookup (registry_key namespace name) by_name) uid) by_name

-- A missing key reads as the empty string.
abbrev pub or_empty : Option Text → Text
or_empty none = []
or_empty (some uid) = uid

unfoldable pub resolve : Map Text → Text → Text → Text
unfolding registry_key
resolve by_name namespace name = or_empty (lookup (registry_key namespace name) by_name)
