-- ===== src/Validation/Patterns.antt =====
-- EMAIL_PATTERN and PHONE_PATTERN of validation.py, matched from left to right.
use customer_data_foundation.Prelude.{
  ℕ, ◌≡◌, ◌≢◌, refl, ap, Bool, true, false, not, ◌&&◌, ◌||◌, [], ◌∷◌, ◌++◌, arith, ◌==◌, ==→eq, leb,
  if◌then◌else◌, Bool-cases, inl, inr, All, all_of, length, ◌↔◌,
}
use customer_data_foundation.Text.{Text, Unicode}

-- ^[^@\s]+@[^@\s]+\.[^@\s]+$: where in the pattern the match stands
pub data Place : Type 0 where
  start local after_at domain after_dot suffix : Place

module _ (u : Unicode) where
  open u use {is_space, is_digit}

  -- [^@\s]
  abbrev pub is_plain : ℕ → Bool
  is_plain c = not (c == b'@') && not (is_space c)

  -- one character; the first dot after at least one character of the domain counts
  unfoldable pub matches_from : Place → Text → Bool
  matches_from suffix [] = true
  matches_from _ [] = false
  matches_from start (c ∷ t) = is_plain c && matches_from local t
  matches_from local (c ∷ t) =
      (c == b'@' || is_plain c) && matches_from (if c == b'@' then after_at else local) t
  matches_from after_at (c ∷ t) = is_plain c && matches_from domain t
  matches_from domain (c ∷ t) =
      is_plain c && matches_from (if c == b'.' then after_dot else domain) t
  matches_from after_dot (c ∷ t) = is_plain c && matches_from suffix t
  matches_from suffix (c ∷ t) = is_plain c && matches_from suffix t

  unfoldable pub email_pattern : Text → Bool
  unfolding matches_from
  email_pattern t = matches_from start t

  -- ^\+[1-9]\d{7,14}$
  unfoldable pub phone_pattern : Text → Bool
  phone_pattern (plus ∷ first ∷ digits) =
      plus == b'+'
      && leb b'1' first
      && leb first b'9'
      && all_of is_digit digits
      && leb 7 (length digits)
      && leb (length digits) 14
  phone_pattern _ = false

  abbrev pub IsPlain : Text → Type 0
  IsPlain t = All (λ c. is_plain c ≡ true) t

  -- a text of plain characters, at least one
  abbrev pub IsPart : Text → Type 0
  IsPart t = (t ≢ []) × IsPlain t

  -- what the pattern describes: local part, @, domain, dot, suffix
  abbrev pub IsEmail : Text → Type 0
  IsEmail t = (l d s : Text) × (t ≡ l ++ b'@' ∷ (d ++ b'.' ∷ s)) × IsPart l × IsPart d × IsPart s

  from_suffix : (t : Text) → matches_from suffix t ≡ true → IsPlain t
  unfolding matches_from
  from_suffix [] h = tt
  from_suffix (c ∷ t) h = elim (Bool-cases (is_plain c)) [
    | inl e ↦ (e, from_suffix t (rw e at h))
    | inr e ↦ absurd (cc (h, e))
  ]

  from_after_dot : (t : Text) → matches_from after_dot t ≡ true → IsPart t
  unfolding matches_from
  from_after_dot [] h = absurd (cc)
  from_after_dot (c ∷ t) h = elim (Bool-cases (is_plain c)) [
    | inl e ↦ ((λ p. cc), (e, from_suffix t (rw e at h)))
    | inr e ↦ absurd (cc (h, e))
  ]

  abbrev Dotted : Text → Type 0
  Dotted t = (d s : Text) × (t ≡ d ++ b'.' ∷ s) × IsPlain d × IsPart s

  from_domain : (t : Text) → matches_from domain t ≡ true → Dotted t
  unfolding matches_from
  from_domain [] h = absurd (cc)
  from_domain (c ∷ t) h = elim (Bool-cases (is_plain c)) [
    | inr e ↦ absurd (cc (h, e))
    | inl e ↦ elim (Bool-cases (c == b'.')) [
      | inl dot ↦
          ([], t, ap (λ (x : ℕ). x ∷ t) (==→eq _ _ dot), tt, from_after_dot t (rw (e, dot) at h))
      | inr other ↦ extend c t e (from_domain t (rw (e, other) at h))
    ]
  ]
    where
      extend : (c : ℕ) (t : Text) → is_plain c ≡ true → Dotted t → Dotted (c ∷ t)
      extend c t e (d, s, p, pd, ps) = (c ∷ d, s, ap (λ (x : Text). c ∷ x) p, (e, pd), ps)

  abbrev Hosted : Text → Type 0
  Hosted t = (d s : Text) × (t ≡ d ++ b'.' ∷ s) × IsPart d × IsPart s

  from_after_at : (t : Text) → matches_from after_at t ≡ true → Hosted t
  unfolding matches_from
  from_after_at [] h = absurd (cc)
  from_after_at (c ∷ t) h = elim (Bool-cases (is_plain c)) [
    | inr e ↦ absurd (cc (h, e))
    | inl e ↦
        let (d, s, p, pd, ps) = from_domain t (rw e at h) in
        (c ∷ d, s, ap (λ (x : Text). c ∷ x) p, ((λ q. cc), (e, pd)), ps)
  ]

  abbrev Addressed : Text → Type 0
  Addressed t = (l d s : Text) × (t ≡ l ++ b'@' ∷ (d ++ b'.' ∷ s)) × IsPlain l × IsPart d × IsPart s

  from_local : (t : Text) → matches_from local t ≡ true → Addressed t
  unfolding matches_from
  from_local [] h = absurd (cc)
  from_local (c ∷ t) h = elim (Bool-cases (c == b'@')) [
    | inl hit ↦ arrive c t (==→eq _ _ hit) (from_after_at t (rw hit at h))
    | inr other ↦ elim (Bool-cases (is_plain c)) [
      | inr e ↦ absurd (ground (arith, other, e))
      | inl e ↦ extend c t e (from_local t (ground (arith, other, e)))
    ]
  ]
    where
      arrive : (c : ℕ) (t : Text) → c ≡ b'@' → Hosted t → Addressed (c ∷ t)
      arrive c t e (d, s, p, pd, ps) = ([], d, s, rw (e, p), tt, pd, ps)

      extend : (c : ℕ) (t : Text) → is_plain c ≡ true → Addressed t → Addressed (c ∷ t)
      extend c t e (l, d, s, p, pl, pd, ps) =
          (c ∷ l, d, s, ap (λ (x : Text). c ∷ x) p, (e, pl), pd, ps)

  email_pattern-IsEmail : (t : Text) → email_pattern t ≡ true → IsEmail t
  unfolding email_pattern
  email_pattern-IsEmail [] h = absurd (cc)
  email_pattern-IsEmail (c ∷ t) h = elim (Bool-cases (is_plain c)) [
    | inr e ↦ absurd (cc (h, e))
    | inl e ↦
        let (l, d, s, p, pl, pd, ps) = from_local t (rw e at h) in
        (c ∷ l, d, s, ap (λ (x : Text). c ∷ x) p, ((λ q. cc), (e, pl)), pd, ps)
  ]

  to_suffix : (t : Text) → IsPlain t → matches_from suffix t ≡ true
  unfolding matches_from
  to_suffix [] h = refl
  to_suffix (c ∷ t) h = rw h.0 (to_suffix t h.1)

  to_after_dot : (t : Text) → IsPart t → matches_from after_dot t ≡ true
  unfolding matches_from
  to_after_dot [] h = absurd (h.0 refl)
  to_after_dot (c ∷ t) h = rw h.1.0 (to_suffix t h.1.1)

  IsPart-append :
      (d s : Text) → is_plain b'.' ≡ true → IsPlain d → IsPart s → IsPart (d ++ b'.' ∷ s)
  IsPart-append [] s dot hd hs = ((λ e. cc), (dot, hs.1))
  IsPart-append (c ∷ d) s dot hd hs = ((λ e. cc), (hd.0, (IsPart-append d s dot hd.1 hs).1))

  to_domain :
      (d s : Text)
      → is_plain b'.' ≡ true
      → IsPlain d
      → IsPart s
      → matches_from domain (d ++ b'.' ∷ s) ≡ true
  unfolding matches_from
  to_domain [] s dot hd hs = rw dot (to_after_dot s hs)
  to_domain (c ∷ d) s dot hd hs = elim (Bool-cases (c == b'.')) [
    | inl e ↦ rw (hd.0, e) (to_after_dot (d ++ b'.' ∷ s) (IsPart-append d s dot hd.1 hs))
    | inr e ↦ rw (hd.0, e) (to_domain d s dot hd.1 hs)
  ]

  to_after_at :
      (d s : Text)
      → is_plain b'.' ≡ true
      → IsPart d
      → IsPart s
      → matches_from after_at (d ++ b'.' ∷ s) ≡ true
  unfolding matches_from
  to_after_at [] s dot hd hs = absurd (hd.0 refl)
  to_after_at (c ∷ d) s dot hd hs = rw hd.1.0 (to_domain d s dot hd.1.1 hs)

  to_local :
      (l t : Text)
      → IsPlain l
      → matches_from after_at t ≡ true
      → matches_from local (l ++ b'@' ∷ t) ≡ true
  unfolding matches_from
  to_local [] t hl h = rw h
  to_local (c ∷ l) t hl h = ground (arith, to_local l t hl.1 h, hl.0)

  -- If a dot is not white space, EMAIL_PATTERN accepts exactly the texts that are a local part, an
  -- @, a domain, a dot and a suffix, each of at least one character that is neither @ nor white
  -- space.
  pub email_pattern_iff :
      (t : Text) → is_space b'.' ≡ false → ((email_pattern t ≡ true) ↔ IsEmail t)
  unfolding email_pattern
  email_pattern_iff t dot =
      (email_pattern-IsEmail t, λ (l, d, s, p, hl, hd, hs). rw p (build l d s hl hd hs))
    where
      build :
          (l d s : Text)
          → IsPart l
          → IsPart d
          → IsPart s
          → matches_from start (l ++ b'@' ∷ (d ++ b'.' ∷ s)) ≡ true
      build [] d s hl hd hs = absurd (hl.0 refl)
      build (c ∷ l) d s hl hd hs =
          rw hl.1.0 (to_local l (d ++ b'.' ∷ s) hl.1.1 (to_after_at d s (rw dot) hd hs))
