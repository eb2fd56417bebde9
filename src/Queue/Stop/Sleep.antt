-- ===== src/Queue/Stop/Sleep.antt =====
-- What `request_sleep_interruption` leaves when the computer goes to sleep.
use searchcar_desktop.Base.{
  ℕ, ◌≡◌, ◌∙◌, refl, inl, inr, Bool, true, false, ◌&&◌, ◌||◌, not, List, [], ◌∷◌, ◌++◌, map, arith,
  any, select, contains, ◌==◌, if◌then◌else◌, Bool-cases,
}
use searchcar_desktop.Store.{Db, ScanRun}
use searchcar_desktop.Queue.Rows.{order_by_id, insert_by_id}
use searchcar_desktop.Queue.Invariant.{Absent, Unique, Unique-append}
use searchcar_desktop.Queue.Selected.{AreIds, selected_ids-AreIds}
use searchcar_desktop.Queue.Stop.{
  sleep_row, request_sleep_interruption, row_running, row_automatic, catch_up_owners,
}

slept : (now : ℕ) (rs : List ScanRun) → any row_running (map (sleep_row now) rs) ≡ false
unfolding sleep_row
slept now [] = refl
slept now (r ∷ rs) = ground (arith, slept now rs)

any-insert_by_id :
    (p : ScanRun → Bool) (r : ScanRun) (rs : List ScanRun)
    → any p (insert_by_id r rs) ≡ (p r || any p rs)
unfolding insert_by_id
any-insert_by_id p r [] = refl
any-insert_by_id p r (s ∷ rs) = ground (arith, any-insert_by_id p r rs)

any-order_by_id : (p : ScanRun → Bool) (rs : List ScanRun) → any p (order_by_id rs) ≡ any p rs
unfolding order_by_id
any-order_by_id p [] = refl
any-order_by_id p (r ∷ rs) =
    ground (arith, any-insert_by_id p r (order_by_id rs), any-order_by_id p rs)

any-select :
    (p q : ScanRun → Bool) (rs : List ScanRun) → any p (select q rs) ≡ any (λ r. q r && p r) rs
any-select p q [] = refl
any-select p q (r ∷ rs) = ground (arith, any-select p q rs)

-- an automatic run of the owner
abbrev pub automatic_of : ℕ → ScanRun → Bool
automatic_of o r = row_automatic r && r.owner_id == o

contains-append : (xs : List ℕ) (y o : ℕ) → contains (xs ++ y ∷ []) o ≡ (contains xs o || y == o)
contains-append [] y o = ground arith
contains-append (x ∷ xs) y o = ground (arith, contains-append xs y o)

-- appending once does not change what is collected
contains-once :
    (b : Bool) (os : List ℕ) (x o : ℕ)
    → contains (if b && not (contains os x) then os ++ x ∷ [] else os) o
      ≡ (contains os o || (b && x == o))
contains-once false os x o = ground arith
contains-once true os x o = elim (Bool-cases (contains os x)) [
  | inl e ↦ elim (Bool-cases (x == o)) [
    | inl q ↦ let same : x ≡ o = ground (arith, q) in rw same (ground (arith, e, same))
    | inr q ↦ ground (arith, e, q)
  ]
  | inr e ↦ ground (arith, e, contains-append os x o)
]

catch_up_owners-contains :
    (os : List ℕ) (rs : List ScanRun) (o : ℕ)
    → contains (catch_up_owners os rs) o ≡ (contains os o || any (automatic_of o) rs)
unfolding catch_up_owners
catch_up_owners-contains os [] o = ground arith
catch_up_owners-contains os (r ∷ rs) o = ground (
  arith,
  catch_up_owners-contains
      (if row_automatic r && not (contains os r.owner_id) then os ++ r.owner_id ∷ [] else os) rs o,
  contains-once (row_automatic r) os r.owner_id o,
)

contains-Absent : (x : ℕ) (os : List ℕ) → contains os x ≡ false → Absent x os
contains-Absent x [] h = tt
contains-Absent x (o ∷ os) h = (λ e. ground (arith, e), contains-Absent x os (ground arith))

abbrev next_owners : List ℕ → ScanRun → List ℕ
next_owners os r =
    if row_automatic r && not (contains os r.owner_id) then os ++ r.owner_id ∷ [] else os

catch_up_owners-Unique :
    (rs : List ScanRun) (os : List ℕ) → Unique os → Unique (catch_up_owners os rs)
unfolding catch_up_owners
catch_up_owners-Unique [] os u = u
catch_up_owners-Unique (r ∷ rs) os u =
    catch_up_owners-Unique rs (next_owners os r)
      (elim (Bool-cases (row_automatic r && not (contains os r.owner_id))) [
        | inl e ↦
            rw e (Unique-append r.owner_id os u (contains-Absent r.owner_id os (ground (arith, e))))
        | inr e ↦ rw e u
      ])

-- The sleep returns the ids of the running runs in ascending order, and once each the owners of
-- the running automatic runs; it leaves no run running.
pub request_sleep_interruption-Stops :
    (now : ℕ) (db : Db)
    → let (requested, owners, db') = request_sleep_interruption now db in
      AreIds row_running db requested
      × ((o : ℕ) → contains owners o ≡ any (λ r. row_running r && automatic_of o r) db.scan_runs)
      × Unique owners
      × (any row_running db'.scan_runs ≡ false)
unfolding request_sleep_interruption
request_sleep_interruption-Stops now db =
    let rows = order_by_id (select row_running db.scan_runs) in
    (
      selected_ids-AreIds row_running db,
      (λ o.
          catch_up_owners-contains [] rows o
          ∙ (any-order_by_id (automatic_of o) (select row_running db.scan_runs)
              ∙ any-select (automatic_of o) row_running db.scan_runs)),
      catch_up_owners-Unique rows [] tt,
      slept now db.scan_runs,
    )
