-- ===== src/Tokens/Csv.antt =====
-- The scopes of a token, stored and read back.
use Prim.Native.Char.{code}
use sakura_monitoring.Base.{
  ◌≡◌, inl, inr, refl, ap, ◌∙◌, false, List, [], ◌∷◌, String, str_eq, str_eq_iff, Bool-cases, All,
  All-mono,
}
use sakura_monitoring.Base.Text.{
  trim_space, split, join, occurs, split-join, split-All, trim_space_idem, occurs-trim_space,
}
use sakura_monitoring.Tokens.Scopes.{comma, trimmed, decode_scopes}

-- A scope as `Scopes` returns it.
pub record IsClean (s : String) : Type 0 where
  pub bare : trim_space s ≡ s
  pub one_part : occurs (code comma) s ≡ false
  pub filled : str_eq s "" ≡ false

trimmed-IsClean :
    (ps : List String) → All (λ p. occurs (code comma) p ≡ false) ps → All IsClean (trimmed ps)
unfolding trimmed
trimmed-IsClean [] a = tt
trimmed-IsClean (p ∷ ps) a = elim (Bool-cases (str_eq (trim_space p) "")) [
  | inl e ↦ rw (trimmed, e) (trimmed-IsClean ps a.1)
  | inr e ↦
      let clean : IsClean (trim_space p) = record {
        bare = trim_space_idem p;
        one_part = occurs-trim_space (code comma) p a.0;
        filled = e;
      } in
      rw (trimmed, e) (clean, trimmed-IsClean ps a.1)
]

pub decode_scopes-IsClean : (csv : String) → All IsClean (decode_scopes csv)
unfolding decode_scopes
decode_scopes-IsClean csv = elim (Bool-cases (str_eq csv "")) [
  | inl e ↦ rw (decode_scopes, e) tt
  | inr e ↦
      rw (decode_scopes, e) (trimmed-IsClean (split (code comma) csv) (split-All (code comma) csv))
]

trimmed_clean : (ps : List String) → All IsClean ps → trimmed ps ≡ ps
unfolding trimmed
trimmed_clean [] a = refl
trimmed_clean (p ∷ ps) a = rw (trimmed, a.0.bare, a.0.filled, trimmed_clean ps a.1) refl

decode_scopes-split : (csv : String) → decode_scopes csv ≡ trimmed (split (code comma) csv)
unfolding decode_scopes trimmed split trim_space
decode_scopes-split csv = elim (Bool-cases (str_eq csv "")) [
  | inl e ↦ let empty : csv ≡ "" = (str_eq_iff csv "").0 e in rw (decode_scopes, empty) refl
  | inr e ↦ rw (decode_scopes, e) refl
]

-- Clean scopes that are joined are read back.
pub decode_scopes-join : (ss : List String) → All IsClean ss → decode_scopes (join comma ss) ≡ ss
unfolding decode_scopes join
decode_scopes-join [] a = refl
decode_scopes-join (s ∷ ss) a =
    decode_scopes-split (join comma (s ∷ ss))
    ∙ ap trimmed (split-join comma s ss a.0.one_part (All-mono ss (λ q c. c.one_part) a.1))
    ∙ trimmed_clean (s ∷ ss) a
