-- ===== src/Jobs/Runs/Once.antt =====
-- What a valid system of runs is, and how it stays valid when a run begins, goes on or ends.
use podokit.Base.{ℕ, ◌≡◌, sym, ap, ◌∙◌, ◌≢◌, inl, inr, true, some, List, arith, nat_eq, text_eq}
use mathlib.Core.Path.{subst}
use podokit.Map
use podokit.Jobs.Rules.{active, waiting}
use podokit.Jobs.Table.{Row, is_status, is_due, find_row}
use podokit.Jobs.Runs.System.{System, Run, Stage, handling, finishing}
use podokit.Jobs.Runs.Invariant.{IsTable, Stands, Holds, active_only}

abbrev pub Running : Type 0
Running = List (ℕ × Run)

-- No two runs have claimed the same job.
abbrev pub IsOnce : Running → Type 0
IsOnce running =
    (n m : ℕ) (run other : Run)
    → Map.get n running ≡ some run
    → Map.get m running ≡ some other
    → run.row.id ≡ other.row.id
    → n ≡ m

abbrev pub AreHeld : List Row → Running → Type 0
AreHeld rows running = (n : ℕ) (run : Run) → Map.get n running ≡ some run → Holds rows run

-- Each job is handled once at a time, and nothing but its run touches its row until it is settled.
pub record IsValid (s : System) : Type 0 where
  pub table : IsTable s.queue.rows
  pub held : AreHeld s.queue.rows s.running
  pub once : IsOnce s.running

-- A run is entered, or goes on, under its number.
module _ (n : ℕ) (run : Run) (running : Running) where
  pub put-IsOnce :
      ((m : ℕ) (other : Run) → Map.get m running ≡ some other → n ≢ m → other.row.id ≢ run.row.id)
      → IsOnce running
      → IsOnce (Map.put n run running)
  put-IsOnce apart once a b x y ex ey same_id = elim (Map.get-put-cases n a run x running ex) [
    | inl (na, rx) ↦ elim (Map.get-put-cases n b run y running ey) [
      | inl (nb, ry) ↦ sym na ∙ nb
      | inr (nb, gy) ↦ absurd (apart b y gy nb (sym same_id ∙ sym (ap (λ (r : Run). r.row.id) rx)))
    ]
    | inr (na, gx) ↦ elim (Map.get-put-cases n b run y running ey) [
      | inl (nb, ry) ↦ absurd (apart a x gx na (same_id ∙ sym (ap (λ (r : Run). r.row.id) ry)))
      | inr (nb, gy) ↦ once a b x y gx gy same_id
    ]
  ]

  pub put-AreHeld :
      (rows : List Row)
      → Holds rows run
      → ((m : ℕ) (other : Run) → Map.get m running ≡ some other → n ≢ m → Holds rows other)
      → AreHeld rows (Map.put n run running)
  put-AreHeld rows here others m x e = elim (Map.get-put-cases n m run x running e) [
    | inl (nm, rx) ↦ subst (Holds rows) rx here
    | inr (nm, g) ↦ others m x g nm
  ]

pub remove-IsOnce : (n : ℕ) (running : Running) → IsOnce running → IsOnce (Map.remove n running)
remove-IsOnce n running once a b x y ex ey same_id =
    once a b x y (Map.get-remove-cases n a x running ex).1 (Map.get-remove-cases n b y running ey).1
      same_id

pub remove-AreHeld :
    (n : ℕ) (running : Running) (rows : List Row)
    → ((m : ℕ) (other : Run) → Map.get m running ≡ some other → n ≢ m → Holds rows other)
    → AreHeld rows (Map.remove n running)
remove-AreHeld n running rows others m x e =
    let (nm, g) = Map.get-remove-cases n m x running e in others m x g nm

-- A row that is due belongs to no run.
due-Stands :
    (stage : Stage) (row r : Row) (now : ℕ) → is_due now r ≡ true → ¬ Stands stage row (some r)
due-Stands handling row r now due h =
    let same_row : r ≡ row = ground (arith, h.0) in
    let running : is_status r.status active ≡ true = rw same_row h.1 in
    absurd (ground (arith, running, due, active_only r.status waiting))
due-Stands (finishing status) row r now due h = absurd (ground (arith, h.1.1, due))

pub idle :
    (s : System)
    → IsValid s
    → (r : Row) (now : ℕ) → find_row r.id s.queue.rows ≡ some r
    → is_due now r ≡ true
    → (m : ℕ) (other : Run) → Map.get m s.running ≡ some other
    → other.row.id ≢ r.id
idle s h r now found due m other e same_id = due-Stands other.stage other.row r now due (
    subst (Stands other.stage other.row) (ap (λ id. find_row id s.queue.rows) same_id ∙ found)
      (h.held m other e))
