-- ===== src/Prelude/Text.antt =====
-- The methods of Python's `str` that the program uses: `strip`, `startswith`, `endswith`, and the
-- slice that drops the last character.
use Prim.Native.Char.{code}
use Prim.Native.Nat.{ℕ, zero, suc, ◌/◌, ◌%◌}
use mathlib.Core.Path.{◌≡◌, refl}
use Prim.Native.String
use Prim.Native.String.{String}
use mathlib.Core.List.{List, [], ◌∷◌}
use mathlib.Core.Bool.{Bool, true, false, ◌&&◌, ◌||◌}
use text.Mathlib.Text.{◌==◌}
use enterprise_agi_runtime.Prelude.Tests.{leb, eqb, if◌then◌else◌}

-- `str.isspace` of one character, by its code point.
unfoldable pub is_space : ℕ → Bool
is_space c =
    (leb 9 c && leb c 13)
    || (leb 28 c && leb c 32)
    || eqb c 133
    || eqb c 160
    || eqb c 5760
    || (leb 8192 c && leb c 8202)
    || eqb c 8232
    || eqb c 8233
    || eqb c 8239
    || eqb c 8287
    || eqb c 12288

unfoldable pub lstrip : String → String
lstrip String.[] = String.[]
lstrip (String.◌∷◌ c s) = let rest = lstrip s in if is_space (code c) then rest else String.◌∷◌ c s

-- A character is dropped when it is white and nothing is left behind it.
unfoldable pub rstrip : String → String
rstrip String.[] = String.[]
rstrip (String.◌∷◌ c s) =
    let rest = rstrip s in if (rest == "") && is_space (code c) then "" else String.◌∷◌ c rest

unfoldable pub strip : String → String
unfolding lstrip rstrip is_space
strip s = lstrip (rstrip s)

unfoldable pub starts_with : String → String → Bool
starts_with s String.[] = true
starts_with String.[] (String.◌∷◌ d p) = false
starts_with (String.◌∷◌ c s) (String.◌∷◌ d p) = eqb (code c) (code d) && starts_with s p

unfoldable pub ends_with : String → String → Bool
ends_with String.[] p = String.[] == p
ends_with (String.◌∷◌ c s) p = (String.◌∷◌ c s == p) || ends_with s p

-- `s[:-1]`
unfoldable pub drop_last : String → String
drop_last String.[] = String.[]
drop_last (String.◌∷◌ c s) = if s == "" then "" else String.◌∷◌ c (drop_last s)

-- `s[1:]`
unfoldable pub drop_first : String → String
drop_first String.[] = String.[]
drop_first (String.◌∷◌ c s) = s

-- `"".join(parts)`, and so the f-strings.
unfoldable pub concat : List String → String
concat [] = ""
concat (s ∷ parts) = String.◌++◌ s (concat parts)

-- `s.replace("human:", "")`, with the characters of a match that are still to be dropped.
unfoldable pub remove_human_from : ℕ → String → String
remove_human_from n String.[] = String.[]
remove_human_from (suc n) (String.◌∷◌ c s) = remove_human_from n s
remove_human_from zero (String.◌∷◌ c s) =
    let rest = remove_human_from 5 s in
    let kept = remove_human_from 0 s in
    if starts_with (String.◌∷◌ c s) "human:" then rest else String.◌∷◌ c kept

unfoldable pub remove_human : String → String
unfolding remove_human_from starts_with
remove_human s = remove_human_from 0 s

-- `s.split(".")[0]`
unfoldable pub before_dot : String → String
before_dot String.[] = String.[]
before_dot (String.◌∷◌ c s) =
    let rest = before_dot s in if eqb (code c) b'.' then "" else String.◌∷◌ c rest

-- `", ".join(parts)`
unfoldable pub comma_join : List String → String
unfolding concat
comma_join [] = ""
comma_join (s ∷ []) = s
comma_join (s ∷ t ∷ parts) = concat (s ∷ ", " ∷ comma_join (t ∷ parts) ∷ [])

-- `s[:n]`
unfoldable pub text_take : ℕ → String → String
text_take zero s = String.[]
text_take (suc n) String.[] = String.[]
text_take (suc n) (String.◌∷◌ c s) = String.◌∷◌ c (text_take n s)

-- `s[n:]`
unfoldable pub text_drop : ℕ → String → String
text_drop zero s = s
text_drop (suc n) String.[] = String.[]
text_drop (suc n) (String.◌∷◌ c s) = text_drop n s

abbrev digit : ℕ → String
digit n = text_take 1 (text_drop n "0123456789")

-- `str(n)`, on fuel: a digit leaves less than the number.
unfoldable pub decimal_from : ℕ → ℕ → String
decimal_from zero n = digit (n % 10)
decimal_from (suc fuel) n =
    let front = decimal_from fuel (n / 10) in
    if leb n 9 then digit n else String.◌++◌ front (digit (n % 10))

unfoldable pub decimal : ℕ → String
unfolding decimal_from text_take text_drop
decimal n = decimal_from n n

decimal_2045 : decimal 2045 ≡ "2045"
unfolding decimal decimal_from text_take text_drop
decimal_2045 = refl
