-- ===== src/Tokens/Decimal.antt =====
-- `formatUint` and the digits loop of `ServerIDs` undo each other.
use Prim.Native.Char.{code}
use Prim.Native.String.{[], ◌∷◌}
use sakura_monitoring.Base.{
  ℕ, zero, suc, ◌+◌, ◌-◌, ◌*◌, ◌/◌, ◌%◌, ◌^◌, ◌<◌, ◌≤◌, ◌&&◌, ◌≡◌, ◌≢◌, refl, sym, ap, ◌∙◌, false,
  ◌||◌, String, ltb, ◌==◌, ==_iff, str_eq, arith, Bool-cases, inl, inr,
}
use sakura_monitoring.Base.Text.{
  trim_space, trim_left, trim_right, cons_unless_blank, occurs, is_ascii_space,
}
use sakura_monitoring.Tokens.Scopes.{comma}
use sakura_monitoring.Tokens.Servers.{parse_id, digit, fill, format_uint}

pub digit-code : (v : ℕ) → v < 10 → code (digit v) ≡ 48 + v
unfolding digit
digit-code zero h = refl
digit-code (suc zero) h = refl
digit-code (suc (suc zero)) h = refl
digit-code (suc (suc (suc zero))) h = refl
digit-code (suc (suc (suc (suc zero)))) h = refl
digit-code (suc (suc (suc (suc (suc zero))))) h = refl
digit-code (suc (suc (suc (suc (suc (suc zero)))))) h = refl
digit-code (suc (suc (suc (suc (suc (suc (suc zero))))))) h = refl
digit-code (suc (suc (suc (suc (suc (suc (suc (suc zero)))))))) h = refl
digit-code (suc (suc (suc (suc (suc (suc (suc (suc (suc zero))))))))) h = refl
digit-code (suc (suc (suc (suc (suc (suc (suc (suc (suc (suc v)))))))))) h = omega (arith, h)

-- What a buffer with some room can hold.
abbrev limit : ℕ → ℕ
limit zero = 1
limit (suc n) = 10 * limit n

parse-digit :
    (v acc : ℕ) (s : String)
    → v < 10
    → parse_id acc (digit v ∷ s) ≡ parse_id ((acc * 10 + v) % 2 ^ 64) s
unfolding parse_id
parse-digit v acc s h =
    let c = digit-code v h in
    let ok : (ltb (code (digit v)) 48 || ltb 57 (code (digit v))) ≡ false = ground (arith, c, h) in
    let step : code (digit v) - 48 ≡ v = omega (arith, c) in rw (parse_id, ok, step) refl

parse-fill :
    (room v : ℕ) (buf : String)
    → v < limit room
    → v < 2 ^ 64
    → parse_id 0 (fill room v buf) ≡ parse_id v buf
unfolding fill
parse-fill zero v buf h w = let z : v ≡ 0 = omega (arith, h) in rw z refl
parse-fill (suc room) v buf h w = elim (Bool-cases (v == 0)) [
  | inl e ↦ let z : v ≡ 0 = (==_iff v 0).0 e in rw (z, fill) refl
  | inr e ↦
      let rest =
        parse-fill room (v / 10) (digit (v % 10) ∷ buf) (omega (arith, h)) (omega (arith, w)) in
      let one = parse-digit (v % 10) (v / 10) buf (omega arith) in
      let back : (v / 10 * 10 + v % 10) % 2 ^ 64 ≡ v = omega (arith, w) in
      rw (e, fill) (rest ∙ one ∙ ap (λ n. parse_id n buf) back)
]

-- The texts that hold digits only.
abbrev AllDigits : String → Type 0
AllDigits [] = Unit
AllDigits (c ∷ s) = ((48 ≤ code c) × (code c ≤ 57)) × AllDigits s

fill-AllDigits : (room v : ℕ) (buf : String) → AllDigits buf → AllDigits (fill room v buf)
unfolding fill
fill-AllDigits zero v buf a = a
fill-AllDigits (suc room) v buf a = elim (Bool-cases (v == 0)) [
  | inl e ↦ rw (fill, e) a
  | inr e ↦
      let c = digit-code (v % 10) (omega arith) in
      rw (fill, e)
        (fill-AllDigits room (v / 10) (digit (v % 10) ∷ buf)
          ((omega (arith, c), omega (arith, c)), a))
]

trim_left-AllDigits : (s : String) → AllDigits s → trim_left s ≡ s
unfolding trim_left
trim_left-AllDigits [] a = refl
trim_left-AllDigits (c ∷ s) a = ground (arith, a.0.0, a.0.1)

trim_right-AllDigits : (s : String) → AllDigits s → trim_right s ≡ s
unfolding trim_right cons_unless_blank
trim_right-AllDigits [] a = refl
trim_right-AllDigits (c ∷ s) a =
    let plain : (is_ascii_space c && str_eq (trim_right s) "") ≡ false =
      ground (arith, a.0.0, a.0.1) in
    rw (trim_right, cons_unless_blank, plain) (ap (λ t. c ∷ t) (trim_right-AllDigits s a.1))

trim_space-AllDigits : (s : String) → AllDigits s → trim_space s ≡ s
unfolding trim_space
trim_space-AllDigits s a = ap trim_right (trim_left-AllDigits s a) ∙ trim_right-AllDigits s a

comma-AllDigits : (s : String) → AllDigits s → occurs (code comma) s ≡ false
unfolding occurs
comma-AllDigits [] a = refl
comma-AllDigits (c ∷ s) a = ground (arith, comma-AllDigits s a.1, a.0.0, a.0.1)

-- What the decoder needs to know of a formatted id.
pub record IsDecimal (v : ℕ) (s : String) : Type 0 where
  pub value : parse_id 0 s ≡ v
  pub bare : trim_space s ≡ s
  pub one_part : occurs (code comma) s ≡ false
  pub filled : v ≢ 0 → s ≢ ""

format_uint-AllDigits : (v : ℕ) → AllDigits (format_uint v)
unfolding format_uint
format_uint-AllDigits v = elim (Bool-cases (v == 0)) [
  | inl e ↦ rw (format_uint, e) ((omega arith, omega arith), tt)
  | inr e ↦ rw (format_uint, e) (fill-AllDigits 20 v "" tt)
]

format_uint-value : (v : ℕ) → v < 2 ^ 64 → parse_id 0 (format_uint v) ≡ v
unfolding format_uint parse_id
format_uint-value v w = elim (Bool-cases (v == 0)) [
  | inl e ↦ rw (format_uint, e) (sym ((==_iff v 0).0 e))
  | inr e ↦ rw (format_uint, e) (parse-fill 20 v "" (omega (arith, w)) w)
]

-- For every uint64 the buffer of 20 bytes is enough, and the text is read back as the number.
pub format_uint-IsDecimal : (v : ℕ) → v < 2 ^ 64 → IsDecimal v (format_uint v)
unfolding parse_id
format_uint-IsDecimal v w =
    let digits = format_uint-AllDigits v in
    let value = format_uint-value v w in
    record {
      value = value;
      bare = trim_space-AllDigits (format_uint v) digits;
      one_part = comma-AllDigits (format_uint v) digits;
      filled = λ n e. n (sym value ∙ ap (parse_id 0) e);
    }
