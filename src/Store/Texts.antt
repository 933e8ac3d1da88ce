-- ===== src/Store/Texts.antt =====
-- `text[:n]`, `strip`, `value or default` on nullable texts, and `" ".join`.
use Prim.Native.String.{◌++◌}
use Prim.Native.Char.{code}
use help_me_bid_backend.Base.{
  ℕ, zero, suc, ◌==◌, ◌&&◌, ◌||◌, leb, String, Bool, Option, none, some, List, [], ◌∷◌, str_eq,
  if◌then◌else◌,
}

unfoldable pub truncate : ℕ → String → String
truncate zero s = ""
truncate (suc n) String.[] = ""
truncate (suc n) (String.◌∷◌ c s) = String.◌∷◌ c (truncate n s)

-- An empty text is false.
abbrev pub text_or : Option String → String → String
text_or none default = default
text_or (some String.[]) default = default
text_or (some (String.◌∷◌ c s)) default = String.◌∷◌ c s

abbrev pub join : List String → String
join [] = ""
join (p ∷ []) = p
join (p ∷ q ∷ ps) = p ++ (" " ++ join (q ∷ ps))

-- What `str.strip` removes.
abbrev pub is_space : ℕ → Bool
is_space c =
    (leb 9 c && leb c 13)
    || (leb 28 c && leb c 32)
    || c == 133
    || c == 160
    || c == 5760
    || (leb 8192 c && leb c 8202)
    || c == 8232
    || c == 8233
    || c == 8239
    || c == 8287
    || c == 12288

abbrev pub lstrip : String → String
lstrip String.[] = ""
lstrip (String.◌∷◌ c s) = let rest = lstrip s in if is_space (code c) then rest else String.◌∷◌ c s

abbrev pub rstrip : String → String
rstrip String.[] = ""
rstrip (String.◌∷◌ c s) =
    let rest = rstrip s in if is_space (code c) && str_eq rest "" then "" else String.◌∷◌ c rest

abbrev pub strip : String → String
strip s = rstrip (lstrip s)

-- The pieces between the occurrences of a character: the first one, and the others.
abbrev pub split_on : ℕ → String → String × List String
split_on sep String.[] = ("", [])
split_on sep (String.◌∷◌ c s) =
    let (word, words) = split_on sep s in
    if code c == sep then ("", word ∷ words) else (String.◌∷◌ c word, words)
