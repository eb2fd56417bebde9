-- ===== src/Queue/Invariant.antt =====
-- What the operations of the queue keep: the keys of scan_runs are distinct and below the next
-- key, and at most one run is active.
use searchcar_desktop.Base.{
  ℕ, ◌+◌, ◌≤◌, ◌<◌, ◌≡◌, refl, sym, ◌≢◌, inl, inr, true, false, List, [], ◌∷◌, ◌++◌, map, arith,
  All, In,
}
use searchcar_desktop.Store.{Db, ScanRun, is_active}
use searchcar_desktop.Queue.Rows.{has_active, active_count, ids}

abbrev pub Absent : ℕ → List ℕ → Type 0
Absent a [] = Unit
Absent a (x ∷ xs) = (x ≢ a) × Absent a xs

abbrev pub Unique : List ℕ → Type 0
Unique [] = Unit
Unique (x ∷ xs) = Absent x xs × Unique xs

abbrev pub Below : ℕ → List ℕ → Type 0
Below n xs = All (λ x. x < n) xs

pub record IsValid (db : Db) : Type 0 where
  pub unique : Unique (ids db.scan_runs)
  pub below : Below db.next_id (ids db.scan_runs)
  pub single : active_count db.scan_runs ≤ 1

module _ (f : ScanRun → ScanRun) where
  -- an update that keeps the key keeps the column
  pub ids-map : ((r : ScanRun) → (f r).id ≡ r.id) → (rs : List ScanRun) → ids (map f rs) ≡ ids rs
  ids-map h [] = refl
  ids-map h (r ∷ rs) = cc (h r, ids-map h rs)

  -- an update that activates no row makes no more rows active
  pub active_count-map-le :
      ((r : ScanRun) → is_active (f r).status ≡ true → is_active r.status ≡ true)
      → (rs : List ScanRun) → active_count (map f rs) ≤ active_count rs
  active_count-map-le h [] = omega arith
  active_count-map-le h (r ∷ rs) = ground (arith, h r, active_count-map-le h rs)

pub has_active-count : (rs : List ScanRun) → has_active rs ≡ false → active_count rs ≡ 0
has_active-count [] h = refl
has_active-count (r ∷ rs) h = ground (arith, has_active-count rs)

pub count-has_active : (rs : List ScanRun) → active_count rs ≡ 0 → has_active rs ≡ false
count-has_active [] h = refl
count-has_active (r ∷ rs) h = ground (arith, count-has_active rs)

pub active_count-append :
    (rs ss : List ScanRun) → active_count (rs ++ ss) ≡ active_count rs + active_count ss
active_count-append [] ss = omega arith
active_count-append (r ∷ rs) ss = omega (arith, active_count-append rs ss)

pub Below-Absent : (n : ℕ) (xs : List ℕ) → Below n xs → Absent n xs
Below-Absent n [] h = tt
Below-Absent n (x ∷ xs) h = ((λ e. omega arith), Below-Absent n xs h.1)

pub Absent-append : (a x : ℕ) (xs : List ℕ) → Absent a xs → x ≢ a → Absent a (xs ++ x ∷ [])
Absent-append a x [] h ne = (ne, tt)
Absent-append a x (y ∷ xs) h ne = (h.0, Absent-append a x xs h.1 ne)

pub Unique-append : (x : ℕ) (xs : List ℕ) → Unique xs → Absent x xs → Unique (xs ++ x ∷ [])
Unique-append x [] u a = (tt, tt)
Unique-append x (y ∷ xs) u a =
    (Absent-append y x xs u.0 (λ e. a.0 (sym e)), Unique-append x xs u.1 a.1)

pub In-ids : (r : ScanRun) (rs : List ScanRun) → In r rs → (a : ℕ) → Absent a (ids rs) → r.id ≢ a
In-ids r [] m a h = elim m [ ]
In-ids r (s ∷ rs) (inl e) a h = λ p. h.0 (rw (← e) p)
In-ids r (s ∷ rs) (inr m) a h = In-ids r rs m a h.1
