-- ===== src/Evidence/Path/Fuel.antt =====
-- The loop of the parser ends: each round of it consumes a character.
use Prim.Native.Char.{Char, code}
use kosa_aws.Base.{
  Bool, Bool-cases, List, String, [], ap, arith, false, if◌then◌else◌, inl, inr, is_blank, nat_eq,
  not, refl, some, suc, true, zero, ℕ, ◌&&◌, ◌+◌, ◌≡◌, ◌≤◌,
}
use kosa_aws.Errors.{
  Result, Result-cases, bind_ok, err, evidence_path_error, ok, ok_inj, require_ok,
}
use kosa_aws.Evidence.Path.{
  Segment, after_close, ends_name, is_blank_key, is_close, is_dot, is_open, parse_document_path,
  prepend, read_expansion, read_key, read_segment, read_segments, read_separator, split_at,
  text_size,
}

abbrev pair_size : String × String → ℕ
pair_size x = text_size x.0 + text_size x.1

chosen_size :
    (b : Bool) (x y : String × String) (n : ℕ)
    → pair_size x ≡ n
    → pair_size y ≡ n
    → pair_size (if b then x else y) ≡ n
chosen_size true x y n p q = p
chosen_size false x y n p q = q

split_at-size : (p : Char → Bool) (s : String) → pair_size (split_at p s) ≡ text_size s
unfolding split_at text_size
split_at-size p String.[] = refl
split_at-size p (String.◌∷◌ c s) =
    chosen_size (p c) _ _ (suc (text_size s)) (omega arith) (omega (arith, split_at-size p s))

after_close-size :
    (x : String × String) {k r : String}
    → after_close x ≡ ok (k, r)
    → text_size k + text_size r ≤ pair_size x
unfolding text_size
after_close-size (key, String.[]) h = cc
after_close-size (key, String.◌∷◌ c s) {k} {r} h =
    let keys = ap (λ y. text_size (y.0)) (ok_inj h) in
    let rests = ap (λ y. text_size (y.1)) (ok_inj h) in omega (arith, keys, rests)

either_way :
    {A P : Type 0} (b : Bool) (x y : A) {z : A}
    → (x ≡ z → P)
    → (y ≡ z → P)
    → (if b then x else y) ≡ z
    → P
either_way true x y p q h = p h
either_way false x y p q h = q h

of_pair :
    (x : String × String) {k r : String}
    → ok x ≡ ok (k, r)
    → text_size k + text_size r ≤ pair_size x
of_pair x h =
    let keys = ap (λ (y : String × String). text_size y.0) (ok_inj h) in
    let rests = ap (λ (y : String × String). text_size y.1) (ok_inj h) in omega (arith, keys, rests)

read_key-size :
    (s : String) {k r : String} → read_key s ≡ ok (k, r) → text_size k + text_size r ≤ text_size s
unfolding read_key text_size
read_key-size String.[] h = of_pair ("", "") h
read_key-size (String.◌∷◌ c s) h =
    either_way (is_open c) (after_close (split_at is_close s))
      (ok (split_at ends_name (String.◌∷◌ c s)))
      (λ e. omega (arith, after_close-size (split_at is_close s) e, split_at-size is_close s))
      (λ e. omega (
        arith,
        of_pair (split_at ends_name (String.◌∷◌ c s)) e,
        split_at-size ends_name (String.◌∷◌ c s),
      ))
      h

named_size : (key : String) → not (is_blank_key key) ≡ true → 1 ≤ text_size key
unfolding text_size
named_size String.[] h = cc
named_size (String.◌∷◌ c s) h = omega arith

read_expansion-size : (s : String) → text_size (read_expansion s).1 ≤ text_size s
unfolding read_expansion text_size
read_expansion-size String.[] = omega arith
read_expansion-size (String.◌∷◌ c String.[]) = omega arith
read_expansion-size (String.◌∷◌ c (String.◌∷◌ d s)) =
    elim (Bool-cases (nat_eq (code c) 91 && nat_eq (code d) 93)) [
      | inl opens ↦ rw opens (omega arith)
      | inr differs ↦ rw differs (omega arith)
    ]

kept_size : (x : String) {r : String} → ok x ≡ ok r → text_size r ≤ text_size x
kept_size x h = let same = ap text_size (ok_inj h) in omega (arith, same)

kept_step : (c : Char) (x : String) {r : String} → ok x ≡ ok r → text_size r ≤ suc (text_size x)
kept_step c x h = omega (arith, kept_size x h)

read_separator-size :
    (s : String) {r : String} → read_separator s ≡ ok r → text_size r ≤ text_size s
unfolding read_separator text_size
read_separator-size String.[] h = kept_size "" h
read_separator-size (String.◌∷◌ c String.[]) h = cc
read_separator-size (String.◌∷◌ c (String.◌∷◌ d s)) {r} h =
    either_way (is_dot c) (ok (String.◌∷◌ d s)) (err evidence_path_error)
      (λ e. kept_step c (String.◌∷◌ d s) e)
      (λ e. absurd (let wrong : (err evidence_path_error ≡ ok r) = e in cc wrong)) h

-- A round leaves less text than it found.
read_segment-size :
    (s : String) {g : Segment} {r : String}
    → read_segment s ≡ ok (g, r)
    → suc (text_size r) ≤ text_size s
unfolding read_segment
read_segment-size s {g} {r} h =
    let (x, hx, h1) = bind_ok (read_key s) _ h in
    let (some_key, h2) = require_ok (not (is_blank_key x.0)) _ _ h1 in
    let (rest, hr, h3) = bind_ok (read_separator (read_expansion x.1).1) _ h2 in
    let keys = read_key-size s hx in
    let key = named_size x.0 some_key in
    let lists = read_expansion-size x.1 in
    let separators = read_separator-size (read_expansion x.1).1 hr in
    let same = ap (λ (y : Segment × String). text_size y.1) (ok_inj h3) in
    omega (arith, keys, key, lists, separators, same)

-- With as much fuel as the text has characters the loop ends.
read_segments-ends :
    (n : ℕ) (s : String)
    → text_size s ≤ n
    → (r : Result (List Segment)) × (read_segments n s ≡ some r)
unfolding read_segments text_size
read_segments-ends n String.[] p = (ok [], refl)
read_segments-ends zero (String.◌∷◌ c s) p = absurd (omega (arith, p))
read_segments-ends (suc n) (String.◌∷◌ c s) p =
    elim (Result-cases (read_segment (String.◌∷◌ c s))) [
      | inr (e, h) ↦ (err e, rw h refl)
      | inl ((g, rest), h) ↦
          let smaller = read_segment-size (String.◌∷◌ c s) h in
          let (r, ends) = read_segments-ends n rest (omega (arith, smaller, p)) in
          (prepend g r, rw (h, ends) refl)
    ]

-- Both amounts of fuel cover the text.
agree :
    (n m : ℕ) (s : String)
    → text_size s ≤ n
    → text_size s ≤ m
    → read_segments n s ≡ read_segments m s
unfolding read_segments text_size
agree n m String.[] p q = refl
agree zero m (String.◌∷◌ c s) p q = absurd (omega (arith, p))
agree (suc n) zero (String.◌∷◌ c s) p q = absurd (omega (arith, q))
agree (suc n) (suc m) (String.◌∷◌ c s) p q = elim (Result-cases (read_segment (String.◌∷◌ c s))) [
  | inr (e, h) ↦ rw h refl
  | inl ((g, r), h) ↦
      let smaller = read_segment-size (String.◌∷◌ c s) h in
      rw (h, agree n m r (omega (arith, smaller, p)) (omega (arith, smaller, q))) refl
]

-- On a path that is not blank the parser's loop ends within as many rounds as the path has characters,
-- with the result of `parse_document_path`, an error included: no amount of fuel that covers the path
-- runs out, and none changes the result.
pub parse_document_path-fuel :
    (n : ℕ) (path : String)
    → is_blank path ≡ false
    → text_size path ≤ n
    → read_segments n path ≡ some (parse_document_path path)
unfolding parse_document_path
parse_document_path-fuel n path h p =
    let (r, ends) = read_segments-ends (text_size path) path (omega arith) in
    rw (h, agree n (text_size path) path p (omega arith), ends) refl
