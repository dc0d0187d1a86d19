-- ===== src/Ferrum/Args/Prints.antt =====
-- A command that is printed is split into its name and its arguments again.
use hurra_v.Base.{
  ℕ, zero, suc, ◌+◌, ◌%◌, ◌/◌, ◌≤◌, ◌<◌, ◌≡◌, inl, inr, refl, ap, ap₂, ◌∙◌, sym, arith, false, ◌||◌,
  some, Bool-cases,
}
use hurra_v.Base.{List, [], ◌∷◌, ◌++◌, append-nil, map, take, length, ◌==◌}
use hurra_v.Base.Int.{ℤ, pos, negsuc}
use hurra_v.Base.Text.{ascii}
use hurra_v.Ferrum.Decimal.{format_int, magnitude, digits_of}
use hurra_v.Ferrum.Decimal.RoundTrip.{Starts, starts, magnitude-Starts}
use hurra_v.Ferrum.Args.{
  trim_start, trim_end, trim, parts, split_args, split_open, before_close, command_of, parse_line,
  bracketed, named, drop_empty, max_args,
}

-- The arguments, with a comma and a blank between two of them.
unfoldable pub join : List ℤ → List ℕ
join [] = []
join (v ∷ []) = format_int v
join (v ∷ w ∷ vs) = format_int v ++ (b',' ∷ b' ' ∷ join (w ∷ vs))

-- The text of a command.
unfoldable pub print : List ℕ → List ℤ → List ℕ
print name args = ascii "km." ++ name ++ (b'(' ∷ (join args ++ (b')' ∷ [])))

-- Digits and signs only.
pub data IsToken : List ℕ → Type 0 where
  token_end : IsToken []
  token_char : (c : ℕ) (s : List ℕ) → b'-' ≤ c → c ≤ b'9' → IsToken s → IsToken (c ∷ s)

digits_of-IsToken : (fuel u : ℕ) (s : List ℕ) → IsToken s → IsToken (digits_of fuel u s)
unfolding digits_of
digits_of-IsToken zero u s h = h
digits_of-IsToken (suc fuel) u s h = elim (Bool-cases (u == 0)) [
  | inl e ↦ rw e h
  | inr e ↦ rw e (
      digits_of-IsToken fuel (u / 10) ((b'0' + u % 10) ∷ s)
        (token_char _ s (omega arith) (omega arith) h))
]

magnitude-IsToken : (u : ℕ) → IsToken (magnitude u)
unfolding magnitude
magnitude-IsToken u = elim (Bool-cases (u == 0)) [
  | inl e ↦ rw e (token_char b'0' [] (omega arith) (omega arith) token_end)
  | inr e ↦ rw e (digits_of-IsToken 10 u [] token_end)
]

pub format_int-IsToken : (v : ℤ) → IsToken (format_int v)
unfolding format_int
format_int-IsToken (pos n) = magnitude-IsToken n
format_int-IsToken (negsuc n) =
    token_char b'-' _ (omega arith) (omega arith) (magnitude-IsToken (n + 1))

-- A printed number is not empty.
data IsSome : List ℕ → Type 0 where
  some_char : (c : ℕ) (s : List ℕ) → IsSome (c ∷ s)

Starts-IsSome : (s : List ℕ) → Starts s → IsSome s
Starts-IsSome _ (starts c s d) = some_char c s

format_int-IsSome : (v : ℤ) → IsSome (format_int v)
unfolding format_int
format_int-IsSome (pos n) = Starts-IsSome _ (magnitude-Starts n)
format_int-IsSome (negsuc n) = some_char b'-' (magnitude (n + 1))

trim_end-IsToken : (s : List ℕ) → IsToken s → trim_end s ≡ s
unfolding trim_end
trim_end-IsToken [] token_end = refl
trim_end-IsToken (c ∷ []) (token_char _ _ low high t) =
    let e : (c == b' ' || c == b'\t') ≡ false = ground (arith, low) in rw e refl
trim_end-IsToken (c ∷ d ∷ s) (token_char _ _ low high t) =
    rw (trim_end-IsToken (d ∷ s) t, trim_end) refl

trim-IsToken : (s : List ℕ) → IsToken s → trim s ≡ s
unfolding trim trim_start trim_end
trim-IsToken [] token_end = refl
trim-IsToken (c ∷ s) (token_char _ _ low high t) =
    let e : (c == b' ' || c == b'\t') ≡ false = ground (arith, low) in
    rw e (trim_end-IsToken (c ∷ s) (token_char c s low high t))

-- A token in front of the rest belongs to its first part.
parts_token :
    (a rest : List ℕ) → IsToken a → parts (a ++ rest) ≡ (a ++ (parts rest).0, (parts rest).1)
unfolding parts
parts_token [] rest token_end = refl
parts_token (c ∷ a) rest (token_char _ _ low high t) =
    let e : (c == b',') ≡ false = ground (arith, low) in
    rw e (ap (λ (q : List ℕ × List (List ℕ)). (c ∷ q.0, q.1)) (parts_token a rest t))

-- The parts behind the first one.
behind : List ℤ → List (List ℕ)
behind [] = []
behind (v ∷ vs) = (b' ' ∷ format_int v) ∷ behind vs

parts-join : (v : ℤ) (vs : List ℤ) → parts (join (v ∷ vs)) ≡ (format_int v, behind vs)
unfolding join behind parts
parts-join v [] =
    ap parts (sym (append-nil (format_int v)))
    ∙ (parts_token (format_int v) [] (format_int-IsToken v)
        ∙ ap (λ (q : List ℕ). (q, [])) (append-nil (format_int v)))
parts-join v (w ∷ vs) =
    parts_token (format_int v) (b',' ∷ b' ' ∷ join (w ∷ vs)) (format_int-IsToken v)
    ∙ (ap (λ (q : List ℕ × List (List ℕ)). (format_int v ++ [], (b' ' ∷ q.0) ∷ q.1))
          (parts-join w vs)
        ∙ ap (λ (q : List ℕ). (q, (b' ' ∷ format_int w) ∷ behind vs)) (append-nil (format_int v)))

trim-behind :
    (n : ℕ) (vs : List ℤ) → length vs ≤ n → map trim (take n (behind vs)) ≡ map format_int vs
unfolding behind trim trim_start
trim-behind zero [] h = refl
trim-behind (suc n) [] h = refl
trim-behind zero (v ∷ vs) h = ground (arith, h)
trim-behind (suc n) (v ∷ vs) h =
    ap₂ (◌∷◌) (trim-IsToken (format_int v) (format_int-IsToken v))
      (trim-behind n vs (omega (arith, h)))

split_args_lem :
    (s : List ℕ) (first : List ℕ) (others : List (List ℕ))
    → IsSome first
    → map trim (take max_args ((parts s).0 ∷ (parts s).1)) ≡ first ∷ others
    → split_args s ≡ first ∷ others
unfolding split_args drop_empty
split_args_lem s _ others (some_char c t) e = ap drop_empty e

split_args-join : (vs : List ℤ) → length vs ≤ 8 → split_args (join vs) ≡ map format_int vs
unfolding split_args drop_empty join parts trim trim_start trim_end
split_args-join [] h = refl
split_args-join (v ∷ vs) h =
    split_args_lem (join (v ∷ vs)) (format_int v) (map format_int vs) (format_int-IsSome v) (
      ap (λ (q : List ℕ × List (List ℕ)). map trim (take max_args (q.0 ∷ q.1))) (parts-join v vs)
      ∙ ap₂ (◌∷◌) (trim-IsToken (format_int v) (format_int-IsToken v))
          (trim-behind 7 vs (omega (arith, h))))

before_close_lem : (s : List ℕ) → before_close (s ++ (b')' ∷ [])) ≡ some s
unfolding before_close
before_close_lem [] = refl
before_close_lem (c ∷ s) = rw (before_close_lem s) refl

-- A name of a command has no bracket.
pub data IsName : List ℕ → Type 0 where
  name_end : IsName []
  name_char : (c : ℕ) (s : List ℕ) → (c == b'(') ≡ false → IsName s → IsName (c ∷ s)

split_open_lem :
    (name body : List ℕ) → IsName name → split_open (name ++ (b'(' ∷ body)) ≡ some (name, body)
unfolding split_open
split_open_lem [] body name_end = refl
split_open_lem (c ∷ name) body (name_char _ _ e t) = rw (e, split_open_lem name body t) refl

parse_line_lem :
    (line name body : List ℕ) (rest : List ℕ)
    → command_of (trim_start line) ≡ some (name, rest)
    → before_close rest ≡ some body
    → (length name == 0) ≡ false
    → parse_line line ≡ some (name, split_args body)
unfolding parse_line bracketed named
parse_line_lem line name body rest a b c = ap bracketed a ∙ (ap (named name) b ∙ rw c refl)

-- A command with a name that has no bracket, and at most eight numbers: what is printed is parsed.
pub parse_line-print :
    (name : List ℕ) (args : List ℤ)
    → IsName name
    → 0 < length name
    → length args ≤ 8
    → parse_line (print name args) ≡ some (name, map format_int args)
unfolding print command_of trim_start
parse_line-print name args n h k =
    parse_line_lem (print name args) name (join args) (join args ++ (b')' ∷ []))
      (split_open_lem name (join args ++ (b')' ∷ [])) n) (before_close_lem (join args))
      (ground (arith, h))
    ∙ ap (λ (q : List (List ℕ)). some (name, q)) (split_args-join args k)
