-- ===== src/Check/Permissions.antt =====
-- Wildcards and merged sets.
use purser.Prelude.{◌≡◌, ◌↔◌, true, List, [], ◌∷◌}
use purser.Permissions.Text.{Text, text}
use purser.Permissions.Engine.{has, contains, merge}
use purser.Permissions.Grants.{AnyGrants, has_iff}
use purser.Permissions.Merged.{has_in_some, has-merge}
use purser.Permissions.Merge.{in_some, IsSorted, IsNodup, merge-union}

abbrev held : List Text
held = text "team:models:*" ∷ text "inference:call" ∷ []

has_iff_example :
    (has held (text "team:models:deploy") ≡ true) ↔ AnyGrants held (text "team:models:deploy")
has_iff_example = has_iff held (text "team:models:deploy")

abbrev wanted : List Text
wanted = text "inference:call" ∷ text "org:roles:create" ∷ []

merge-union_example :
    ((p : Text) → contains p (merge (held ∷ wanted ∷ [])) ≡ in_some p (held ∷ wanted ∷ []))
    × IsSorted (merge (held ∷ wanted ∷ []))
    × IsNodup (merge (held ∷ wanted ∷ []))
merge-union_example = merge-union (held ∷ wanted ∷ [])

has-merge_example :
    has (merge (held ∷ wanted ∷ [])) (text "org:roles:create")
    ≡ has_in_some (held ∷ wanted ∷ []) (text "org:roles:create")
has-merge_example = has-merge (held ∷ wanted ∷ []) (text "org:roles:create")
