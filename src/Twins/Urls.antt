-- ===== src/Twins/Urls.antt =====
-- What `_canonical_video_urls` of set_twin_service.py puts before the id of a video.
use diggy.Prelude.{List, [], ◌∷◌, ◌++◌, map}
use diggy.Prelude.Text.{Text}

abbrev paths : List Text
paths =
    (b'y' ∷ b'o' ∷ b'u' ∷ b't' ∷ b'u' ∷ b'.' ∷ b'b' ∷ b'e' ∷ b'/' ∷ [])
    ∷ (b'w' ∷ b'w' ∷ b'w' ∷ b'.' ∷ b'y' ∷ b'o' ∷ b'u' ∷ b't' ∷ b'u' ∷ b'b' ∷ b'e' ∷ b'.' ∷ b'c'
        ∷ b'o' ∷ b'm' ∷ b'/' ∷ b'w' ∷ b'a' ∷ b't' ∷ b'c' ∷ b'h' ∷ b'?' ∷ b'v' ∷ b'=' ∷ [])
    ∷ (b'w' ∷ b'w' ∷ b'w' ∷ b'.' ∷ b'y' ∷ b'o' ∷ b'u' ∷ b't' ∷ b'u' ∷ b'b' ∷ b'e' ∷ b'.' ∷ b'c'
        ∷ b'o' ∷ b'm' ∷ b'/' ∷ b'l' ∷ b'i' ∷ b'v' ∷ b'e' ∷ b'/' ∷ [])
    ∷ (b'w' ∷ b'w' ∷ b'w' ∷ b'.' ∷ b'y' ∷ b'o' ∷ b'u' ∷ b't' ∷ b'u' ∷ b'b' ∷ b'e' ∷ b'.' ∷ b'c'
        ∷ b'o' ∷ b'm' ∷ b'/' ∷ b'e' ∷ b'm' ∷ b'b' ∷ b'e' ∷ b'd' ∷ b'/' ∷ [])
    ∷ (b'y' ∷ b'o' ∷ b'u' ∷ b't' ∷ b'u' ∷ b'b' ∷ b'e' ∷ b'.' ∷ b'c' ∷ b'o' ∷ b'm' ∷ b'/' ∷ b'w'
        ∷ b'a' ∷ b't' ∷ b'c' ∷ b'h' ∷ b'?' ∷ b'v' ∷ b'=' ∷ [])
    ∷ (b'y' ∷ b'o' ∷ b'u' ∷ b't' ∷ b'u' ∷ b'b' ∷ b'e' ∷ b'.' ∷ b'c' ∷ b'o' ∷ b'm' ∷ b'/' ∷ b'l'
        ∷ b'i' ∷ b'v' ∷ b'e' ∷ b'/' ∷ [])
    ∷ (b'y' ∷ b'o' ∷ b'u' ∷ b't' ∷ b'u' ∷ b'b' ∷ b'e' ∷ b'.' ∷ b'c' ∷ b'o' ∷ b'm' ∷ b'/' ∷ b'e'
        ∷ b'm' ∷ b'b' ∷ b'e' ∷ b'd' ∷ b'/' ∷ [])
    ∷ (b'm' ∷ b'.' ∷ b'y' ∷ b'o' ∷ b'u' ∷ b't' ∷ b'u' ∷ b'b' ∷ b'e' ∷ b'.' ∷ b'c' ∷ b'o' ∷ b'm'
        ∷ b'/' ∷ b'w' ∷ b'a' ∷ b't' ∷ b'c' ∷ b'h' ∷ b'?' ∷ b'v' ∷ b'=' ∷ [])
    ∷ (b'm' ∷ b'.' ∷ b'y' ∷ b'o' ∷ b'u' ∷ b't' ∷ b'u' ∷ b'b' ∷ b'e' ∷ b'.' ∷ b'c' ∷ b'o' ∷ b'm'
        ∷ b'/' ∷ b'l' ∷ b'i' ∷ b'v' ∷ b'e' ∷ b'/' ∷ [])
    ∷ (b'm' ∷ b'.' ∷ b'y' ∷ b'o' ∷ b'u' ∷ b't' ∷ b'u' ∷ b'b' ∷ b'e' ∷ b'.' ∷ b'c' ∷ b'o' ∷ b'm'
        ∷ b'/' ∷ b'e' ∷ b'm' ∷ b'b' ∷ b'e' ∷ b'd' ∷ b'/' ∷ [])
    ∷ (b'm' ∷ b'u' ∷ b's' ∷ b'i' ∷ b'c' ∷ b'.' ∷ b'y' ∷ b'o' ∷ b'u' ∷ b't' ∷ b'u' ∷ b'b' ∷ b'e'
        ∷ b'.' ∷ b'c' ∷ b'o' ∷ b'm' ∷ b'/' ∷ b'w' ∷ b'a' ∷ b't' ∷ b'c' ∷ b'h' ∷ b'?' ∷ b'v' ∷ b'='
        ∷ [])
    ∷ (b'm' ∷ b'u' ∷ b's' ∷ b'i' ∷ b'c' ∷ b'.' ∷ b'y' ∷ b'o' ∷ b'u' ∷ b't' ∷ b'u' ∷ b'b' ∷ b'e'
        ∷ b'.' ∷ b'c' ∷ b'o' ∷ b'm' ∷ b'/' ∷ b'l' ∷ b'i' ∷ b'v' ∷ b'e' ∷ b'/' ∷ [])
    ∷ (b'm' ∷ b'u' ∷ b's' ∷ b'i' ∷ b'c' ∷ b'.' ∷ b'y' ∷ b'o' ∷ b'u' ∷ b't' ∷ b'u' ∷ b'b' ∷ b'e'
        ∷ b'.' ∷ b'c' ∷ b'o' ∷ b'm' ∷ b'/' ∷ b'e' ∷ b'm' ∷ b'b' ∷ b'e' ∷ b'd' ∷ b'/' ∷ [])
    ∷ []

abbrev https : Text
https = b'h' ∷ b't' ∷ b't' ∷ b'p' ∷ b's' ∷ b':' ∷ b'/' ∷ b'/' ∷ []

abbrev http : Text
http = b'h' ∷ b't' ∷ b't' ∷ b'p' ∷ b':' ∷ b'/' ∷ b'/' ∷ []

-- each path after each scheme, the id at its end
unfoldable pub canonical_video_urls : Text → List Text
canonical_video_urls video_id =
    map (λ p. https ++ p ++ video_id) paths ++ map (λ p. http ++ p ++ video_id) paths
