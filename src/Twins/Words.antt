-- ===== src/Twins/Words.antt =====
-- The words of set_twin_rules.py that say nothing of a performance, and those that mark a
-- collaboration.
use diggy.Prelude.{List, [], ◌∷◌}
use diggy.Prelude.Text.{Text}

-- COLLAB_WORDS
abbrev pub collab_words : List Text
collab_words = (b'b' ∷ b'2' ∷ b'b' ∷ []) ∷ (b'b' ∷ b'3' ∷ b'b' ∷ []) ∷ (b'v' ∷ b's' ∷ []) ∷ []

-- GENERIC_TITLE_WORDS
abbrev pub generic_title_words : List Text
generic_title_words =
    (b'd' ∷ b'j' ∷ [])
    ∷ (b's' ∷ b'e' ∷ b't' ∷ [])
    ∷ (b's' ∷ b'e' ∷ b't' ∷ b's' ∷ [])
    ∷ (b'l' ∷ b'i' ∷ b'v' ∷ b'e' ∷ [])
    ∷ (b'm' ∷ b'i' ∷ b'x' ∷ [])
    ∷ (b's' ∷ b'e' ∷ b's' ∷ b's' ∷ b'i' ∷ b'o' ∷ b'n' ∷ [])
    ∷ (b's' ∷ b'e' ∷ b's' ∷ b's' ∷ b'i' ∷ b'o' ∷ b'n' ∷ b's' ∷ [])
    ∷ (b'f' ∷ b'u' ∷ b'l' ∷ b'l' ∷ [])
    ∷ (b't' ∷ b'h' ∷ b'e' ∷ [])
    ∷ (b'a' ∷ b't' ∷ [])
    ∷ (b'w' ∷ b'i' ∷ b't' ∷ b'h' ∷ [])
    ∷ (b'w' ∷ [])
    ∷ (b'i' ∷ b'n' ∷ [])
    ∷ (b'b' ∷ b'y' ∷ [])
    ∷ (b'd' ∷ b'e' ∷ [])
    ∷ (b'l' ∷ b'a' ∷ [])
    ∷ (b'l' ∷ b'e' ∷ [])
    ∷ (b'x' ∷ [])
    ∷ (b'a' ∷ b'n' ∷ b'd' ∷ [])
    ∷ (b'e' ∷ b't' ∷ [])
    ∷ (b'u' ∷ b'n' ∷ b'd' ∷ [])
    ∷ (b'f' ∷ b'e' ∷ b'a' ∷ b't' ∷ [])
    ∷ (b'f' ∷ b't' ∷ [])
    ∷ (b'i' ∷ b'n' ∷ b'v' ∷ b'i' ∷ b't' ∷ b'e' ∷ [])
    ∷ (b'i' ∷ b'n' ∷ b'v' ∷ b'i' ∷ b't' ∷ b'e' ∷ b's' ∷ [])
    ∷ (b'p' ∷ b'r' ∷ b'e' ∷ b's' ∷ b'e' ∷ b'n' ∷ b't' ∷ b'e' ∷ [])
    ∷ (b'p' ∷ b'r' ∷ b'e' ∷ b's' ∷ b'e' ∷ b'n' ∷ b't' ∷ b'e' ∷ b'n' ∷ b't' ∷ [])
    ∷ (b'p' ∷ b'r' ∷ b'e' ∷ b's' ∷ b'e' ∷ b'n' ∷ b't' ∷ b'e' ∷ b's' ∷ [])
    ∷ (b'p' ∷ b'r' ∷ b'e' ∷ b's' ∷ b'e' ∷ b'n' ∷ b't' ∷ b's' ∷ [])
    ∷ (b'p' ∷ b'r' ∷ b'e' ∷ b's' ∷ b'e' ∷ b'n' ∷ b't' ∷ [])
    ∷ []
