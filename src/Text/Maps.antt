-- ===== src/Text/Maps.antt =====
-- Go maps from strings as association lists: assignment and maps.Copy.
use notifykit.Base.{List, [], ◌∷◌, if◌then◌else◌}
use notifykit.Text.{Text, text_eq}

-- The assignment to a key of a map.
unfoldable pub assign : {V : Type 0} → Text → V → List (Text × V) → List (Text × V)
assign name value [] = (name, value) ∷ []
assign name value ((key, old) ∷ m) =
    let rest = assign name value m in
    if text_eq key name then (key, value) ∷ m else (key, old) ∷ rest

-- maps.Copy
unfoldable pub copy_into : {V : Type 0} → List (Text × V) → List (Text × V) → List (Text × V)
unfolding assign
copy_into m [] = m
copy_into m ((name, value) ∷ more) = copy_into (assign name value m) more
