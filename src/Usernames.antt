-- ===== src/Usernames.antt =====
-- The username patterns of src/gafaelfawr/constants.py, as `re.match` and `re.search` apply them:
-- one pass that keeps whether the last character was a dash, and whether the letter that
-- `USERNAME_REGEX` asks for has been seen. `$` also matches before a newline at the end.
use Prim.Native.Char.{Char, code}
use gafaelfawr.Prelude.{String, Bool, true, false, not, ◌&&◌, ◌||◌, ◌==◌, leb, if◌then◌else◌}
use gafaelfawr.Prelude.Text.{starts_with, drop, char_eq}

abbrev pub is_lower : Char → Bool
is_lower c = leb b'a' (code c) && leb (code c) b'z'

-- `[a-z0-9]`
abbrev pub is_alnum : Char → Bool
is_alnum c = is_lower c || leb b'0' (code c) && leb (code c) b'9'

abbrev is_empty : String → Bool
is_empty String.[] = true
is_empty (String.◌∷◌ c s) = false

abbrev newline : Char
newline = "\n"

-- What may follow the first character.
unfoldable pub matches_rest : Bool → Bool → String → Bool
matches_rest dash seen String.[] = not dash && seen
matches_rest dash seen (String.◌∷◌ c s) =
    let after_alnum = matches_rest false (seen || is_lower c && not dash) s in
    let after_dash = matches_rest true seen s in
    if is_alnum c
    then after_alnum
    else if c == "-" && not dash
    then after_dash
    else c == newline && is_empty s && not dash && seen

-- `re.match(USERNAME_REGEX, username)`
unfoldable pub valid_username : String → Bool
unfolding matches_rest
valid_username String.[] = false
valid_username (String.◌∷◌ c s) = is_alnum c && matches_rest false false s

bot_rest : String → Bool
bot_rest String.[] = false
bot_rest (String.◌∷◌ c s) = is_alnum c && matches_rest false true s

-- `re.search(BOT_USERNAME_REGEX, username)`
unfoldable pub is_bot_user : String → Bool
unfolding matches_rest bot_rest
is_bot_user username = starts_with username "bot-" && bot_rest (drop 4 username)
