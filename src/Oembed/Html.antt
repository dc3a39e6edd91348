-- ===== src/Oembed/Html.antt =====
-- The parsed page, and the search for its link to oembed data (`findHref` and the function `f` of
-- `discover`). A node that is no element keeps only its children.
use youtube_ar.Base.{
  String, List, [], ◌∷◌, Bool, true, false, ◌&&◌, str_eq, codes, contains_text, if◌then◌else◌,
}

pub record Attribute : Type 0 where
  pub key : String
  pub val : String

mutual
  pub data Node : Type 0 where
    element : (tag : String) → List Attribute → Nodes → Node
    other : Nodes → Node

  pub data Nodes : Type 0 where
    end : Nodes
    child : Node → Nodes → Nodes

-- The first loop of findHref.
unfoldable pub has_oembed_type : List Attribute → Bool
unfolding contains_text
has_oembed_type [] = false
has_oembed_type (a ∷ attrs) =
    if str_eq a.key "type" && contains_text (codes a.val) (codes "json+oembed")
    then true
    else has_oembed_type attrs

-- The second.
unfoldable pub href : List Attribute → String
href [] = ""
href (a ∷ attrs) = if str_eq a.key "href" then a.val else href attrs

unfoldable pub find_href : Node → String
unfolding has_oembed_type href
find_href (other children) = ""
find_href (element tag attrs children) =
    if str_eq tag "link" then (if has_oembed_type attrs then href attrs else "") else ""

-- The first text that is not empty.
abbrev pub or_else : String → String → String
or_else s t = if str_eq s "" then t else s

-- The search stops at the first link that has an address.
unfoldable mutual
  pub find_link : Node → String
  find_link (element tag attrs children) =
      or_else (find_href (element tag attrs children)) (find_in children)
  find_link (other children) = or_else (find_href (other children)) (find_in children)

  pub find_in : Nodes → String
  find_in end = ""
  find_in (child node more) = or_else (find_link node) (find_in more)
