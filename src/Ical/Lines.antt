-- ===== src/Ical/Lines.antt =====
-- `unfold` and `splitLine` of apps/api/src/channel-sync/ical-parse.ts.
use sambung.Common.{
  ◌-◌, option_map, leb, any, ℕ, Bool, false, ◌&&◌, ◌||◌, Option, none, some, List, [], ◌∷◌, ◌==◌,
  if◌then◌else◌,
}
use sambung.Ical.Text.{Text, codes, upper, trim, before_first, after_first}

abbrev pub is_blank : ℕ → Bool
is_blank c = c == b' ' || c == b'\t'

-- `.replace(/\r\n[ \t]/g, '')`
unfoldable pub drop_crlf_folds : Text → Text
drop_crlf_folds (a ∷ b ∷ c ∷ cs) =
    let dropped = drop_crlf_folds cs in
    let kept = a ∷ drop_crlf_folds (b ∷ c ∷ cs) in
    if a == b'\r' && b == b'\n' && is_blank c then dropped else kept
drop_crlf_folds cs = cs

-- `.replace(/[\r\n][ \t]/g, '')`
unfoldable pub drop_folds : Text → Text
drop_folds (a ∷ b ∷ cs) =
    let dropped = drop_folds cs in
    let kept = a ∷ drop_folds (b ∷ cs) in
    if (a == b'\r' || a == b'\n') && is_blank b then dropped else kept
drop_folds cs = cs

abbrev pub push_char : ℕ → List Text → List Text
push_char c [] = (c ∷ []) ∷ []
push_char c (l ∷ ls) = (c ∷ l) ∷ ls

-- `.split(/\r\n|\r|\n/)`; the flag says that the character before was a CR, whose LF makes no line.
unfoldable pub split_lines : Bool → Text → List Text
split_lines after_cr [] = [] ∷ []
split_lines after_cr (c ∷ cs) =
    let rest = split_lines (c == b'\r') cs in
    if after_cr && c == b'\n'
    then rest
    else if c == b'\r' || c == b'\n'
    then [] ∷ rest
    else push_char c rest

unfoldable pub unfold_lines : Text → List Text
unfold_lines body = split_lines false (drop_folds (drop_crlf_folds body))

pub record ContentLine : Type 0 where
  pub name : Text
  pub tzid : Option Text
  pub value : Text

-- What the regular expression captures: characters up to a `;` or a `:`, at least one.
abbrev some_if_any : Text → Option Text
some_if_any [] = none
some_if_any (c ∷ cs) = some (c ∷ cs)

abbrev pub until_mark : Text → Text
until_mark [] = []
until_mark (c ∷ cs) = let rest = until_mark cs in if c == b';' || c == b':' then [] else c ∷ rest

abbrev ascii_upper : ℕ → ℕ
ascii_upper c = if leb b'a' c && leb c b'z' then c - 32 else c

-- The text after a prefix, in either case.
abbrev after_prefix : Text → Text → Option Text
after_prefix [] t = some t
after_prefix (p ∷ ps) [] = none
after_prefix (p ∷ ps) (c ∷ cs) =
    let rest = after_prefix ps cs in if p == ascii_upper c then rest else none

abbrev captured : Option Text → Option Text
captured none = none
captured (some t) = some_if_any (until_mark t)

abbrev or_else : Option Text → Option Text → Option Text
or_else none later = later
or_else (some t) later = some t

-- `/;TZID=([^;:]+)/i.exec(left)?.[1]`
unfoldable pub tzid_param : Text → Option Text
tzid_param [] = none
tzid_param (c ∷ cs) = or_else (captured (after_prefix (codes ";TZID=") (c ∷ cs))) (tzid_param cs)

-- `.replace(/^"(.*)"$/, '$1')`: a dot is no line terminator.
abbrev is_terminator : ℕ → Bool
is_terminator c = c == b'\n' || c == b'\r' || c == 0x2028 || c == 0x2029

-- The text before a `"` that ends it, if it is of one line.
abbrev before_last_quote : Text → Option Text
before_last_quote [] = none
before_last_quote (c ∷ []) = if c == b'"' then some [] else none
before_last_quote (c ∷ d ∷ cs) =
    if is_terminator c then none else option_map (λ t. c ∷ t) (before_last_quote (d ∷ cs))

abbrev unquoted : Text → Option Text → Text
unquoted t none = t
unquoted t (some inner) = inner

abbrev pub unquote : Text → Text
unquote [] = []
unquote (c ∷ cs) = if c == b'"' then unquoted (c ∷ cs) (before_last_quote cs) else c ∷ cs

abbrev clean_tzid : Option Text → Option Text
clean_tzid none = none
clean_tzid (some raw) = some_if_any (trim (unquote (trim raw)))

abbrev has_char : ℕ → Text → Bool
has_char c t = any (λ d. d == c) t

abbrev line_parts : Text → Option Text → Option ContentLine
line_parts left none = none
line_parts left (some value) = some (record {
  name = upper (trim (before_first b';' left));
  tzid = if has_char b';' left then clean_tzid (tzid_param left) else none;
  value = value;
})

unfoldable pub split_line : Text → Option ContentLine
unfolding upper tzid_param
split_line line = line_parts (before_first b':' line) (after_first b':' line)
