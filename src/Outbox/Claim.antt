-- ===== src/Outbox/Claim.antt =====
-- Which event `claim_next_event` reserves.
use customer_data_foundation.Prelude.{
  ◌≡◌, refl, Bool, true, false, not, ◌&&◌, List, [], ◌∷◌, Option, none, some, arith, All,
  Bool-cases, inl, inr, In, if◌then◌else◌,
}
use customer_data_foundation.Sql.{Uuid, Timestamp}
use customer_data_foundation.Outbox.{Row, claimable, is_locked, sorts_before, candidate}

-- a row that the query may pick
abbrev pub eligible : Timestamp → List Uuid → Row → Bool
eligible now locked r = claimable now r && not (is_locked locked r)

-- `c` is one of the eligible rows, and none of them stands before it
pub record IsFirst (now : Timestamp) (locked : List Uuid) (rows : List Row) (c : Row) : Type 0 where
  pub member : In c rows
  pub is_eligible : eligible now locked c ≡ true
  pub first : All (λ (r : Row). eligible now locked r ≡ true → sorts_before r c ≡ false) rows

abbrev pub Picks : Timestamp → List Uuid → List Row → Option Row → Type 0
Picks now locked rows none = All (λ (r : Row). eligible now locked r ≡ false) rows
Picks now locked rows (some c) = IsFirst now locked rows c

sorts_before_irrefl : (a : Row) → sorts_before a a ≡ false
sorts_before_irrefl a = ground arith

sorts_before_trans :
    (a b c : Row) → sorts_before a b ≡ false → sorts_before b c ≡ false → sorts_before a c ≡ false
sorts_before_trans a b c p q = ground arith

sorts_before_asym : (a b : Row) → sorts_before a b ≡ true → sorts_before b a ≡ false
sorts_before_asym a b p = ground arith

All-imp : {P Q : Row → Type 0} (rows : List Row) → ((r : Row) → P r → Q r) → All P rows → All Q rows
All-imp [] f h = tt
All-imp (r ∷ rows) f h = (f r h.0, All-imp rows f h.1)

-- one more row before a table whose pick is known
pick_cons :
    (now : Timestamp) (locked : List Uuid) (r : Row) (rows : List Row) (o : Option Row)
    → Picks now locked rows o
    → Picks now locked (r ∷ rows) (
        if eligible now locked r
        then some (elim o [ none ↦ r | some b ↦ if sorts_before b r then b else r ])
        else o)
pick_cons now locked r rows none p = elim (Bool-cases (eligible now locked r)) [
  | inl e ↦ rw e (record {
    member = inl refl;
    is_eligible = e;
    first = (λ _. sorts_before_irrefl r, All-imp rows (λ q f t. absurd (cc (f, t))) p);
  })
  | inr e ↦ rw e (e, p)
]
pick_cons now locked r rows (some b) p = elim (Bool-cases (eligible now locked r)) [
  | inr e ↦ rw e (record {
    member = inr p.member;
    is_eligible = p.is_eligible;
    first = (λ t. absurd (cc (e, t)), p.first);
  })
  | inl e ↦ elim (Bool-cases (sorts_before b r)) [
    | inl s ↦
        rw (e, s)
          (record {
            member = inr p.member;
            is_eligible = p.is_eligible;
            first = (λ _. sorts_before_asym b r s, p.first);
          })
    | inr s ↦
        rw (e, s)
          (record {
            member = inl refl;
            is_eligible = e;
            first = (
              λ _. sorts_before_irrefl r,
              All-imp rows (λ q f t. sorts_before_trans q b r (f t) s) p.first,
            );
          })
  ]
]

-- The query picks the first eligible row, that is one that is claimable and that nobody has locked,
-- and finds none only when there is none.
pub candidate-Picks :
    (now : Timestamp) (locked : List Uuid) (rows : List Row)
    → Picks now locked rows (candidate now locked rows)
unfolding candidate
candidate-Picks now locked [] = tt
candidate-Picks now locked (r ∷ rows) =
    pick_cons now locked r rows (candidate now locked rows) (candidate-Picks now locked rows)
