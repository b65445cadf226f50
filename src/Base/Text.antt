-- ===== src/Base/Text.antt =====
-- What Go's `strings` does with the texts that the program takes apart.
use Prim.Native.Char.{Char, code}
use Prim.Native.String
use Prim.Native.String.{String, [], ◌∷◌}
use Prim.Native.Nat.{ℕ}
use mathlib.Core.Path.{◌≡◌, refl, sym, ap, ◌∙◌}
use mathlib.Core.Bool.{Bool, true, false, ◌&&◌, ◌||◌}
use mathlib.Core.List.{List}
use mathlib.Core.Logic.{inl, inr}
use native.Mathlib.Omega.{arith}
use text.Mathlib.TextLemmas.{nil-append, cons-append}
use sakura_monitoring.Base.Tests.{leb, ◌==◌, ==_iff, str_eq, if◌then◌else◌, Bool-cases}
use sakura_monitoring.Base.Lists.{All}

abbrev pub is_ascii_space : Char → Bool
is_ascii_space c = code c == 32 || leb 9 (code c) && leb (code c) 13

-- `strings.TrimSpace`, for the ASCII white space
unfoldable pub trim_left : String → String
trim_left [] = []
trim_left (c ∷ s) = let rest = trim_left s in if is_ascii_space c then rest else c ∷ s

unfoldable pub cons_unless_blank : Char → String → String
cons_unless_blank c rest = if is_ascii_space c && str_eq rest "" then "" else c ∷ rest

unfoldable pub trim_right : String → String
unfolding cons_unless_blank
trim_right [] = []
trim_right (c ∷ s) = cons_unless_blank c (trim_right s)

unfoldable pub trim_space : String → String
unfolding trim_left trim_right
trim_space s = trim_right (trim_left s)

-- `strings.HasPrefix`
unfoldable pub has_prefix : String → String → Bool
has_prefix s [] = true
has_prefix [] (d ∷ p) = false
has_prefix (c ∷ s) (d ∷ p) = let rest = has_prefix s p in code c == code d && rest

-- `strings.TrimSuffix` and `strings.HasSuffix`
unfoldable pub trim_suffix : String → String → String
trim_suffix [] p = []
trim_suffix (c ∷ s) p = let rest = trim_suffix s p in if str_eq (c ∷ s) p then "" else c ∷ rest

unfoldable pub has_suffix : String → String → Bool
has_suffix [] p = str_eq [] p
has_suffix (c ∷ s) p = let rest = has_suffix s p in str_eq (c ∷ s) p || rest

-- A character in front of the first part
abbrev pub extend : Char → List String → List String
extend c List.[] = List.◌∷◌ (c ∷ []) List.[]
extend c (List.◌∷◌ p ps) = List.◌∷◌ (c ∷ p) ps

-- `strings.Split` at the character of a code
unfoldable pub split : ℕ → String → List String
split n [] = List.◌∷◌ [] List.[]
split n (c ∷ s) = let rest = split n s in if code c == n then List.◌∷◌ [] rest else extend c rest

-- `strings.Join` with a separator of one character
unfoldable pub join : Char → List String → String
join d List.[] = ""
join d (List.◌∷◌ p List.[]) = p
join d (List.◌∷◌ p (List.◌∷◌ q ps)) = String.◌++◌ p (d ∷ join d (List.◌∷◌ q ps))

-- Whether a code stands in a text.
unfoldable pub occurs : ℕ → String → Bool
occurs n [] = false
occurs n (c ∷ s) = let rest = occurs n s in code c == n || rest

split-plain : (n : ℕ) (p : String) → occurs n p ≡ false → split n p ≡ List.◌∷◌ p List.[]
unfolding split occurs
split-plain n [] h = refl
split-plain n (c ∷ s) h = ground (arith, split-plain n s, h)

split-first :
    (n : ℕ) (p rest : String) (d : Char)
    → occurs n p ≡ false
    → code d ≡ n
    → split n (String.◌++◌ p (d ∷ rest)) ≡ List.◌∷◌ p (split n rest)
unfolding split occurs
split-first n [] rest d h e =
    let same : (code d == n) ≡ true = (==_iff (code d) n).1 e in rw (nil-append, split, same) refl
split-first n (c ∷ s) rest d h e =
    let other : (code c == n) ≡ false = ground (arith, h) in
    let later : occurs n s ≡ false = ground (arith, h) in
    rw (cons-append, split, other) (ap (extend c) (split-first n s rest d later e))

-- Splitting what was joined gives the parts back, if there are some and none holds the separator.
pub split-join :
    (d : Char) (p : String) (ps : List String)
    → occurs (code d) p ≡ false
    → All (λ q. occurs (code d) q ≡ false) ps
    → split (code d) (join d (List.◌∷◌ p ps)) ≡ List.◌∷◌ p ps
unfolding join
split-join d p List.[] h a = split-plain (code d) p h
split-join d p (List.◌∷◌ q ps) h a =
    split-first (code d) p (join d (List.◌∷◌ q ps)) d h refl
    ∙ ap (λ l. List.◌∷◌ p l) (split-join d q ps a.0 a.1)

-- The first character is white space.
abbrev leads : String → Bool
leads [] = false
leads (c ∷ s) = is_ascii_space c

trim_right_idem : (s : String) → trim_right (trim_right s) ≡ trim_right s
unfolding trim_right cons_unless_blank
trim_right_idem [] = refl
trim_right_idem (c ∷ s) = elim (Bool-cases (is_ascii_space c && str_eq (trim_right s) "")) [
  | inl e ↦
      let out : cons_unless_blank c (trim_right s) ≡ "" = rw (cons_unless_blank, e) refl in
      ap trim_right out ∙ sym out
  | inr e ↦
      let out : cons_unless_blank c (trim_right s) ≡ c ∷ trim_right s =
        rw (cons_unless_blank, e) refl in
      ap trim_right out ∙ ap (cons_unless_blank c) (trim_right_idem s)
]

trim_left-stops : (s : String) → leads (trim_left s) ≡ false
unfolding trim_left
trim_left-stops [] = refl
trim_left-stops (c ∷ s) = ground (arith, trim_left-stops s)

trim_left-fixed : (s : String) → leads s ≡ false → trim_left s ≡ s
unfolding trim_left
trim_left-fixed [] h = refl
trim_left-fixed (c ∷ s) h = rw (h, trim_left) refl

trim_right-stops : (s : String) → leads s ≡ false → leads (trim_right s) ≡ false
unfolding trim_right cons_unless_blank
trim_right-stops [] h = refl
trim_right-stops (c ∷ s) h = rw (trim_right, cons_unless_blank, h) h

pub trim_space_idem : (s : String) → trim_space (trim_space s) ≡ trim_space s
unfolding trim_space
trim_space_idem s =
    let fixed =
      trim_left-fixed (trim_right (trim_left s))
        (trim_right-stops (trim_left s) (trim_left-stops s)) in
    ap trim_right fixed ∙ trim_right_idem (trim_left s)

occurs-trim_left : (n : ℕ) (s : String) → occurs n s ≡ false → occurs n (trim_left s) ≡ false
unfolding occurs trim_left
occurs-trim_left n [] h = refl
occurs-trim_left n (c ∷ s) h = ground (arith, occurs-trim_left n s)

occurs-trim_right : (n : ℕ) (s : String) → occurs n s ≡ false → occurs n (trim_right s) ≡ false
unfolding occurs trim_right
occurs-trim_right n [] h = refl
occurs-trim_right n (c ∷ s) h = elim (Bool-cases (is_ascii_space c && str_eq (trim_right s) "")) [
  | inl e ↦ rw (trim_right, cons_unless_blank, e) refl
  | inr e ↦ rw (trim_right, cons_unless_blank, e) (ground (arith, occurs-trim_right n s, h))
]

pub occurs-trim_space : (n : ℕ) (s : String) → occurs n s ≡ false → occurs n (trim_space s) ≡ false
unfolding trim_space
occurs-trim_space n s h = occurs-trim_right n (trim_left s) (occurs-trim_left n s h)

extend-All :
    (n : ℕ) (c : Char) (ps : List String)
    → (code c == n) ≡ false
    → All (λ q. occurs n q ≡ false) ps
    → All (λ q. occurs n q ≡ false) (extend c ps)
unfolding occurs
extend-All n c List.[] e a = (ground (arith, e), tt)
extend-All n c (List.◌∷◌ p ps) e a = (ground (arith, e, a.0), a.1)

-- The parts of a text do not hold the separator.
pub split-All : (n : ℕ) (s : String) → All (λ q. occurs n q ≡ false) (split n s)
unfolding split occurs
split-All n [] = (refl, tt)
split-All n (c ∷ s) = elim (Bool-cases (code c == n)) [
  | inl e ↦ rw (split, e) (refl, split-All n s)
  | inr e ↦ rw (split, e) (extend-All n c (split n s) e (split-All n s))
]
