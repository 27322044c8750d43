-- ===== src/Jobs/Table.antt =====
-- The table "podokit_job" and the statements that the queue runs on it. The rows stand in the order
-- in which they were inserted; of rows that are created at the same time the first one is claimed.
pub mod Claims
use podokit.Base.{
  ℕ, zero, suc, ◌+◌, ◌-◌, ◌*◌, ◌/◌, ◌%◌, ◌^◌, ◌≤◌, ◌<◌, min, max, ◌≡◌, refl, sym, ap, ◌∙◌, ◌≡⟨◌⟩◌,
  ◌∎, ◌≢◌, ◌↔◌, ◌⊎◌, inl, inr, Bool, true, false, not, ◌&&◌, ◌||◌, Option, none, some, List, [],
  ◌∷◌, ◌++◌, map, append-nil, append_assoc, arith, ltb, leb, ◌==◌, if◌then◌else◌, ltb→lt, lt→ltb,
  leb→le, le→leb, ==_iff, tests, Bool-cases, Option-cases, codes, length, get_elem?, take, drop,
  keep_if, any, all, length-append, take-append-drop, length-drop, length-take, All, All-append,
  All-map, All-keep_if, Result, ok, err, Result-cases, Ensures, Ensures-bind, Ensures-after,
  Ensures-ok, Ensures-of, All-get_elem?, ◌>>=◌, ◌>>◌, reject_if, Eq, list_beq, list_beq_iff, Text,
  same, same_iff, same_refl, nat_eq, text_eq,
}
use podokit.Texts.{text_lt}
use podokit.Jobs.Rules.{Status, waiting, active, completed, failed}

pub record Row : Type 0 where
  pub id : Text
  pub name : Text
  pub payload : Text
  pub status : Status
  pub attempts : ℕ
  pub max_attempts : ℕ
  pub available_at : ℕ
  pub created_at : ℕ
  pub updated_at : ℕ
  pub error : Option Text

abbrev pub is_status : Status → Status → Bool
is_status waiting waiting = true
is_status active active = true
is_status completed completed = true
is_status failed failed = true
is_status _ _ = false

unfoldable pub find_row : Text → List Row → Option Row
find_row id [] = none
find_row id (row ∷ rows) = if same row.id id then some row else find_row id rows

-- INSERT ... ON CONFLICT ("id") DO NOTHING
unfoldable pub insert_row : Row → List Row → List Row
unfolding find_row
insert_row row rows = elim (find_row row.id rows) [ none ↦ rows ++ row ∷ [] | some old ↦ rows ]

-- UPDATE ... WHERE "id" = id
unfoldable pub update_row : Text → (Row → Row) → List Row → List Row
update_row id change [] = []
update_row id change (row ∷ rows) =
    (if same row.id id then change row else row) ∷ update_row id change rows

-- WHERE "status" = 'waiting' AND "availableAt" <= now
abbrev pub is_due : ℕ → Row → Bool
is_due now row = is_status row.status waiting && leb row.available_at now

-- ORDER BY "createdAt" ASC LIMIT 1
abbrev older : Row → Option Row → Row
older row none = row
older row (some next) = if ltb next.created_at row.created_at then next else row

unfoldable pub oldest_due : ℕ → List Row → Option Row
oldest_due now [] = none
oldest_due now (row ∷ rows) =
    let next = oldest_due now rows in if is_due now row then some (older row next) else next

abbrev pub started_at : ℕ → Row → Row
started_at now row = record row { status = active; attempts = row.attempts + 1; updated_at = now }

-- UPDATE ... RETURNING: the row as it is written.
unfoldable pub claim : ℕ → List Row → List Row × Option Row
unfolding oldest_due update_row
claim now rows = elim (oldest_due now rows) [
  | none ↦ (rows, none)
  | some row ↦ (update_row row.id (started_at now) rows, some (started_at now row))
]

-- WHERE "name" = name AND "status" = status
abbrev pub in_group : Text → Status → Row → Bool
in_group name status row = same row.name name && is_status row.status status

-- ORDER BY "updatedAt" DESC, "id" DESC: `r` comes before `s`.
abbrev pub newer : Row → Row → Bool
newer r s = ltb s.updated_at r.updated_at || (r.updated_at == s.updated_at && text_lt s.id r.id)

unfoldable pub count_newer : (Row → Bool) → Row → List Row → ℕ
count_newer group s [] = 0
count_newer group s (row ∷ rows) =
    (if group row && newer row s then 1 else 0) + count_newer group s rows

-- DELETE ... AND "id" NOT IN (SELECT ... LIMIT keep): a row of the group goes if at least `keep`
-- rows of the group come before it.
unfoldable pub retain : Text → Status → ℕ → List Row → List Row
unfolding count_newer
retain name status keep rows =
    keep_if
      (λ row.
        not (in_group name status row) || ltb (count_newer (in_group name status) row rows) keep)
      rows

-- DELETE ... WHERE "id" = id
unfoldable pub delete_row : Text → List Row → List Row
delete_row id rows = keep_if (λ row. not (same row.id id)) rows
