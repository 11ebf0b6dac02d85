-- ===== src/Api/Like/Tests.antt =====
-- A pattern of cmd/api/main.go.
use Prim.Native.Char.{Char, code}
use inwheel_server.Prelude.{Bool, false, some, ◌≡◌, refl, eqb}
use inwheel_server.Api.Like.{like_pattern}
use inwheel_server.Api.Like.Matching.{like, like-like_pattern}

abbrev equal_chars : Char → Char → Bool
equal_chars c d = eqb (code c) (code d)

pattern_percent : like_pattern "5%_\\" ≡ "%5\\%\\_\\\\%"
unfolding like_pattern
pattern_percent = refl

like-like_pattern_example : like equal_chars "a 50 off" (like_pattern "5%") ≡ some false
like-like_pattern_example = like-like_pattern equal_chars "a 50 off" "5%"
