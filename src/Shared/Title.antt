-- ===== src/Shared/Title.antt =====
-- libs/shared/src/lib/types/contracts.ts: the title of a conversation.
pub mod Laws
use ragpolyglot_demo.Base.{ℕ, Bool, false, List, [], ◌∷◌, ◌++◌, leb, if◌then◌else◌, length, take}
use ragpolyglot_demo.Base.Text.{Text, codes, is_space, trim, is_empty}

-- `s.replace(/\s+/g, ' ')`; the flag says that the unit before was white space.
collapse_from : Bool → Text → Text
collapse_from before [] = []
collapse_from before (c ∷ s) =
    let rest = collapse_from (is_space c) s in
    if is_space c then if before then rest else 32 ∷ rest else c ∷ rest

unfoldable pub collapse : Text → Text
unfolding collapse_from
collapse s = collapse_from false s

-- The title itself, from the query without its superfluous white space.
shorten : Text → Text
shorten title =
    if is_empty title
    then codes "New chat"
    else if leb (length title) 60
    then title
    else take 57 title ++ codes "…"

unfoldable pub conversation_title_from_query : Text → Text
unfolding shorten
conversation_title_from_query query = shorten (trim (collapse query))
