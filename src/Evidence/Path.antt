-- ===== src/Evidence/Path.antt =====
-- apps/backend/policy/evidence_paths.py: `parse_document_path`. The index into the text is the text
-- that is left.
pub mod Fuel
use mathlib.Core.Option.{map as map_option}
use Prim.Native.Char.{Char, code}
use kosa_aws.Base.{
  Bool, List, Option, String, [], false, if◌then◌else◌, is_blank, nat_eq, none, not, refl, some,
  suc, true, zero, ℕ, ◌&&◌, ◌||◌, ◌∷◌, ◌≡◌,
}
use kosa_aws.Errors.{Result, err, evidence_path_error, ok, require, runtime_error, ◌>>=◌, ◌>>◌}

pub record Segment : Type 0 where
  pub key : String
  pub expands_list : Bool

-- `{`, `}`, `.` and `[`
abbrev pub is_open : Char → Bool
is_open c = nat_eq (code c) 123

abbrev pub is_close : Char → Bool
is_close c = nat_eq (code c) 125

abbrev pub is_dot : Char → Bool
is_dot c = nat_eq (code c) 46

unfoldable pub ends_name : Char → Bool
ends_name c = is_dot c || nat_eq (code c) 91 || is_open c

-- The text before the first character that passes the test, and the text from it on.
unfoldable pub split_at : (Char → Bool) → String → String × String
split_at p String.[] = (String.[], String.[])
split_at p (String.◌∷◌ c s) =
    let (before, after) = split_at p s in
    if p c then (String.[], String.◌∷◌ c s) else (String.◌∷◌ c before, after)

-- The text after the closing brace.
abbrev pub after_close : String × String → Result (String × String)
after_close (key, String.[]) = err evidence_path_error
after_close (key, String.◌∷◌ c s) = ok (key, s)

-- A braced key, or a name up to the next `.`, `[` or `{`.
unfoldable pub read_key : String → Result (String × String)
unfolding split_at ends_name
read_key String.[] = ok (String.[], String.[])
read_key (String.◌∷◌ c s) =
    if is_open c
    then after_close (split_at is_close s)
    else ok (split_at ends_name (String.◌∷◌ c s))

-- `path.startswith("[]", index)`, and the text after it
unfoldable pub read_expansion : String → Bool × String
read_expansion (String.◌∷◌ c (String.◌∷◌ d s)) =
    if nat_eq (code c) 91 && nat_eq (code d) 93
    then (true, s)
    else (false, String.◌∷◌ c (String.◌∷◌ d s))
read_expansion s = (false, s)

-- What follows a segment: nothing, or a separator with more behind it.
unfoldable pub read_separator : String → Result String
read_separator String.[] = ok String.[]
read_separator (String.◌∷◌ c String.[]) = err evidence_path_error
read_separator (String.◌∷◌ c (String.◌∷◌ d s)) =
    if is_dot c then ok (String.◌∷◌ d s) else err evidence_path_error

abbrev pub is_blank_key : String → Bool
is_blank_key String.[] = true
is_blank_key (String.◌∷◌ c s) = false

unfoldable pub text_size : String → ℕ
text_size String.[] = 0
text_size (String.◌∷◌ c s) = suc (text_size s)

-- One round of the loop: a segment, and the text after its separator.
unfoldable pub read_segment : String → Result (Segment × String)
unfolding read_key read_expansion read_separator
read_segment s = do
  (key, after_key) ← read_key s
  require (not (is_blank_key key)) evidence_path_error
  let (expands, after_list) = read_expansion after_key
  rest ← read_separator after_list
  ok (record { key = key; expands_list = expands }, rest)

-- `segments.append(segment)`, ahead of what the later rounds append.
abbrev pub prepend : Segment → Result (List Segment) → Result (List Segment)
prepend segment rest = rest >>= λ segments. ok (segment ∷ segments)

-- What follows a round: its exception, or the rounds on the text that it leaves.
abbrev pub after_round :
    Result (Segment × String)
    → (String → Option (Result (List Segment)))
    → Option (Result (List Segment))
after_round (err e) rounds = some (err e)
after_round (ok (segment, rest)) rounds = map_option (prepend segment) (rounds rest)

-- The loop, on fuel for its rounds; `none` means that the fuel ran out.
unfoldable pub read_segments : ℕ → String → Option (Result (List Segment))
unfolding read_segment
read_segments fuel String.[] = some (ok [])
read_segments zero (String.◌∷◌ c s) = none
read_segments (suc fuel) (String.◌∷◌ c s) =
    after_round (read_segment (String.◌∷◌ c s)) (read_segments fuel)

-- A loop that has not ended is told from a path that is refused.
abbrev pub ended : Option (Result (List Segment)) → Result (List Segment)
ended none = err runtime_error
ended (some result) = result

unfoldable pub parse_document_path : String → Result (List Segment)
unfolding text_size read_segments is_blank
parse_document_path path =
    if is_blank path then err evidence_path_error else ended (read_segments (text_size path) path)

test_path :
    parse_document_path "a.b[].{c.d}"
    ≡ ok (
        record { key = "a"; expands_list = false }
        ∷ record { key = "b"; expands_list = true }
        ∷ record { key = "c.d"; expands_list = false }
        ∷ [])
unfolding parse_document_path
test_path = refl
