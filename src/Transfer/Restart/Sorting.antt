-- ===== src/Transfer/Restart/Sorting.antt =====
-- The order in which a restart looks at the credentials.
use sakura_monitoring.Base.{
  ◌≡◌, true, false, List, [], ◌∷◌, arith, nat_eq, All, All-mono, Has, Bool-cases, inl, inr,
}
use sakura_monitoring.Transfer.Restart.{Candidate, is_before, place_newest, newest_first}

-- No candidate of a list is newer.
abbrev pub NoneBefore : Candidate → List Candidate → Type 0
NoneBefore c = All (λ d. is_before d c ≡ false)

abbrev pub IsSorted : List Candidate → Type 0
IsSorted [] = Unit
IsSorted (c ∷ cs) = NoneBefore c cs × IsSorted cs

before_trans :
    (a b c : Candidate) → is_before a b ≡ false → is_before b c ≡ false → is_before a c ≡ false
before_trans a b c h g = ground arith

pub before_irrefl : (a : Candidate) → is_before a a ≡ false
before_irrefl a = ground arith

before_asym : (a b : Candidate) → is_before a b ≡ true → is_before b a ≡ false
before_asym a b h = ground arith

place_newest-NoneBefore :
    (x c : Candidate) (cs : List Candidate)
    → is_before c x ≡ false
    → NoneBefore x cs
    → NoneBefore x (place_newest c cs)
unfolding place_newest
place_newest-NoneBefore x c [] e h = (e, tt)
place_newest-NoneBefore x c (d ∷ ds) e h = elim (Bool-cases (is_before d c)) [
  | inl b ↦ rw b (h.0, place_newest-NoneBefore x c ds e h.1)
  | inr b ↦ rw b (e, h)
]

place_newest-IsSorted :
    (c : Candidate) (cs : List Candidate) → IsSorted cs → IsSorted (place_newest c cs)
unfolding place_newest
place_newest-IsSorted c [] h = (tt, tt)
place_newest-IsSorted c (d ∷ ds) h = elim (Bool-cases (is_before d c)) [
  | inl b ↦
      rw b (place_newest-NoneBefore d c ds (before_asym d c b) h.0, place_newest-IsSorted c ds h.1)
  | inr b ↦ rw b ((b, All-mono ds (λ x n. before_trans x d c n b) h.0), h)
]

pub newest_first-IsSorted : (cs : List Candidate) → IsSorted (newest_first cs)
unfolding newest_first
newest_first-IsSorted [] = tt
newest_first-IsSorted (c ∷ cs) =
    place_newest-IsSorted c (newest_first cs) (newest_first-IsSorted cs)

-- A sorted list holds what the list held.
place_newest-Has :
    (x c : Candidate) (cs : List Candidate) → Has x (c ∷ cs) → Has x (place_newest c cs)
unfolding place_newest
place_newest-Has x c [] h = h
place_newest-Has x c (d ∷ ds) h = elim (Bool-cases (is_before d c)) [
  | inr b ↦ rw b h
  | inl b ↦ rw b (elim h [
    | inl e ↦ inr (place_newest-Has x c ds (inl e))
    | inr (inl e) ↦ inl e
    | inr (inr r) ↦ inr (place_newest-Has x c ds (inr r))
  ])
]

pub newest_first-Has : (x : Candidate) (cs : List Candidate) → Has x cs → Has x (newest_first cs)
unfolding newest_first
newest_first-Has x [] h = h
newest_first-Has x (c ∷ cs) h =
    place_newest-Has x c (newest_first cs)
      (elim h [ inl e ↦ inl e | inr r ↦ inr (newest_first-Has x cs r) ])

Has-place_newest :
    (x c : Candidate) (cs : List Candidate) → Has x (place_newest c cs) → Has x (c ∷ cs)
unfolding place_newest
Has-place_newest x c [] = λ h. h
Has-place_newest x c (d ∷ ds) = elim (Bool-cases (is_before d c)) [
  | inr b ↦ rw b (λ h. h)
  | inl b ↦ rw b (λ h. elim h [
    | inl e ↦ inr (inl e)
    | inr r ↦ elim (Has-place_newest x c ds r) [ inl e ↦ inl e | inr q ↦ inr (inr q) ]
  ])
]

pub Has-newest_first : (x : Candidate) (cs : List Candidate) → Has x (newest_first cs) → Has x cs
unfolding newest_first
Has-newest_first x [] h = h
Has-newest_first x (c ∷ cs) h = elim (Has-place_newest x c (newest_first cs) h) [
  | inl e ↦ inl e
  | inr r ↦ inr (Has-newest_first x cs r)
]
