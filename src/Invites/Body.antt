-- ===== src/Invites/Body.antt =====
-- What the handlers read of a request's body.
use text.Mathlib.Text.{starts_with}
use fos_mono.Common.{
  String, Bool, not, ◌&&◌, List, [], ◌∷◌, Option, none, some, length, select, every, ◌==◌, nat_eq,
  ltb, leb, if◌then◌else◌,
}
use fos_mono.Common.Text.{text_length, text_take}
use fos_mono.Node.{Json, str, arr, Items, nil, cons}
use fos_mono.Invites.Table.{Capability, read, edit, execute, same_capability}

abbrev pub scope_texts : Items → Option (List String)
scope_texts nil = some []
scope_texts (cons (str s) xs) = elim (scope_texts xs) [ none ↦ none | some ss ↦ some (s ∷ ss) ]
scope_texts (cons _ xs) = none

abbrev pub is_scope_text : String → Bool
is_scope_text s = ltb 0 (text_length s) && leb (text_length s) 128

-- `isScope`, with the texts of a value that is one.
unfoldable pub is_scope : Json → Option (List String)
is_scope (arr xs) = elim (scope_texts xs) [
  | none ↦ none
  | some ss ↦ if leb (length ss) 32 && every is_scope_text ss then some ss else none
]
is_scope _ = none

abbrev pub scope_of : Option Json → Option (List String)
scope_of none = some []
scope_of (some v) = is_scope v

abbrev pub names_of : Option (List String) → List String → List String
names_of none scope = scope
names_of (some names) scope = if nat_eq (length names) (length scope) then names else scope

abbrev pub capability_of : Json → Option Capability
capability_of (str s) =
    if s == "read"
    then some read
    else if s == "edit"
    then some edit
    else if s == "execute"
    then some execute
    else none
capability_of _ = none

-- `new Set(requested)`
abbrev pub add_capability : Capability → List Capability → List Capability
add_capability c cs = c ∷ select (λ d. not (same_capability c d)) cs

unfoldable pub requested_capabilities : Items → List Capability
requested_capabilities nil = []
requested_capabilities (cons x xs) =
    let rest = requested_capabilities xs in
    elim (capability_of x) [ none ↦ rest | some c ↦ add_capability c rest ]

unfoldable pub capabilities_of : Option Json → List Capability
capabilities_of (some (arr xs)) = elim (requested_capabilities xs) [
  | [] ↦ edit ∷ []
  | c ∷ cs ↦ c ∷ cs
]
capabilities_of _ = edit ∷ []

-- A text of the body that is not empty and short enough.
abbrev pub peer_text : Option Json → Option String
peer_text (some (str s)) =
    if s == "" then none else if ltb 128 (text_length s) then none else some s
peer_text _ = none

abbrev pub invite_token : Option Json → Option String
invite_token (some (str s)) = if starts_with s "fosinv_" then some s else none
invite_token _ = none

abbrev pub short_name : Option Json → String
short_name (some (str s)) = text_take 80 s
short_name _ = ""
