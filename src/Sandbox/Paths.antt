-- ===== src/Sandbox/Paths.antt =====
-- astartis/core/sandbox, the path guard: normalise, has_dotdot, is_inside and to_rel on the text of
-- a path.
use astartis_codex_control_p.Base.{
  ◌+◌, String, Bool, true, false, ◌&&◌, ◌||◌, not, ◌==◌, ltb, nat_eq, if◌then◌else◌,
}
use Prim.Native.Char.{Char, code}
use Prim.Native.String.{len, slice, char_at}
use text.Mathlib.Text.{starts_with}

abbrev pub char_eq : Char → Char → Bool
char_eq c d = nat_eq (code c) (code d)

-- std::replace(s.begin(), s.end(), '\\', '/')
unfoldable pub slashed : String → String
slashed String.[] = ""
slashed (String.◌∷◌ c s) = String.◌∷◌ (if nat_eq (code c) b'\\' then "/" else c) (slashed s)

-- The text without its trailing slashes.
unfoldable pub stripped : String → String
stripped String.[] = ""
stripped (String.◌∷◌ c s) =
    let rest = stripped s in if rest == "" && nat_eq (code c) b'/' then "" else String.◌∷◌ c rest

-- while (s.size() > 1 && s.back() == '/') s.pop_back();
unfoldable pub strip_slashes : String → String
unfolding stripped
strip_slashes String.[] = ""
strip_slashes (String.◌∷◌ c s) = String.◌∷◌ c (stripped s)

unfoldable pub normalise : String → String
unfolding strip_slashes slashed
normalise p = strip_slashes (slashed p)

-- s.size() >= t.size() && s.substr(0, t.size()) == t
unfoldable pub begins : String → String → Bool
begins s String.[] = true
begins String.[] (String.◌∷◌ d t) = false
begins (String.◌∷◌ c s) (String.◌∷◌ d t) = char_eq c d && begins s t

-- s.size() >= t.size() && s.substr(s.size() - t.size()) == t
unfoldable pub ends : String → String → Bool
ends String.[] t = "" == t
ends (String.◌∷◌ c s) t = (String.◌∷◌ c s == t) || ends s t

-- s.find(t) != npos, for a t that is not empty
unfoldable pub contains : String → String → Bool
unfolding begins
contains String.[] t = false
contains (String.◌∷◌ c s) t = begins (String.◌∷◌ c s) t || contains s t

unfoldable pub has_dotdot : String → Bool
unfolding begins ends contains
has_dotdot s = (s == "..") || (begins s "../" || (ends s "/.." || contains s "/../"))

-- norm_path is norm_root, or goes on behind it with a slash.
unfoldable pub is_below : String → String → Bool
is_below norm_path norm_root =
    norm_path == norm_root
    || (ltb (len norm_root) (len norm_path)
        && (starts_with norm_path norm_root
            && nat_eq (code (char_at norm_path (len norm_root))) b'/'))

unfoldable pub is_inside : String → String → Bool
unfolding normalise has_dotdot is_below
is_inside abs_path root_path =
    not (has_dotdot (normalise abs_path)) && is_below (normalise abs_path) (normalise root_path)

-- The first argument is the member root_path_.
unfoldable pub to_rel : String → String → String
unfolding normalise has_dotdot is_inside
to_rel root_path abs_path =
    let norm = normalise abs_path in
    if has_dotdot norm
    then ""
    else if not (is_inside norm root_path)
    then ""
    else if norm == root_path
    then "."
    else slice norm (len root_path + 1) (len norm)
