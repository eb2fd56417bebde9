-- ===== src/System/Evolution.antt =====
-- How a row of scan_runs may change: a step forward in its life, and nothing at all once it is
-- terminal. The payload of a row that has not ended may be written back from an old copy.
use mathlib.Core.Path.{subst}
use searchcar_desktop.Base.{
  ℕ, ◌≤◌, ◌≡◌, refl, sym, ◌∙◌, ◌≢◌, inl, inr, true, false, some, List, [], ◌∷◌, ◌++◌, map, arith,
  In, find_by, ◌==◌, ==→eq, Bool-cases,
}
use searchcar_desktop.Store.{ScanRun, RunStatus, queued, running, cancel_requested, is_terminal}
use searchcar_desktop.Queue.Rows.{ids}
use searchcar_desktop.Queue.Invariant.{Absent, Unique}
use searchcar_desktop.Queue.Counting.{write}

-- the order of a run's life
abbrev pub stage : RunStatus → ℕ
stage queued = 0
stage running = 1
stage cancel_requested = 2
stage _ = 3

pub record Follows (r s : ScanRun) : Type 0 where
  pub id : s.id ≡ r.id
  pub owner : s.owner_id ≡ r.owner_id
  pub kind : s.kind ≡ r.kind
  pub created : s.created_at ≡ r.created_at
  pub forward : stage r.status ≤ stage s.status
  pub frozen : is_terminal r.status ≡ true → s ≡ r

pub Follows-refl : (r : ScanRun) → Follows r r
Follows-refl r = record {
  id = refl;
  owner = refl;
  kind = refl;
  created = refl;
  forward = omega arith;
  frozen = λ h. refl;
}

terminal-stage : (s t : RunStatus) → is_terminal s ≡ true → s ≡ t → is_terminal t ≡ true
terminal-stage s t h e = cc

pub Follows-trans : {r s t : ScanRun} → Follows r s → Follows s t → Follows r t
Follows-trans {r} {s} {t} a b = record {
  id = b.id ∙ a.id;
  owner = b.owner ∙ a.owner;
  kind = b.kind ∙ a.kind;
  created = b.created ∙ a.created;
  forward = omega (arith, a.forward, b.forward);
  frozen = λ h.
      b.frozen (subst (λ (x : ScanRun). is_terminal x.status ≡ true) (sym (a.frozen h)) h)
      ∙ a.frozen h;
}

-- the rows of the table, each as it was or further on, and after them any new rows
abbrev pub Evolves : List ScanRun → List ScanRun → Type 0
Evolves [] ss = Unit
Evolves (r ∷ rs) [] = ⊥
Evolves (r ∷ rs) (s ∷ ss) = Follows r s × Evolves rs ss

pub Evolves-refl : (rs : List ScanRun) → Evolves rs rs
Evolves-refl [] = tt
Evolves-refl (r ∷ rs) = (Follows-refl r, Evolves-refl rs)

pub map-Evolves :
    (f : ScanRun → ScanRun)
    → ((r : ScanRun) → Follows r (f r))
    → (rs : List ScanRun) → Evolves rs (map f rs)
map-Evolves f h [] = tt
map-Evolves f h (r ∷ rs) = (h r, map-Evolves f h rs)

pub append-Evolves : (rs ss ts : List ScanRun) → Evolves rs ss → Evolves rs (ss ++ ts)
append-Evolves [] ss ts h = tt
append-Evolves (r ∷ rs) [] ts h = elim h [ ]
append-Evolves (r ∷ rs) (s ∷ ss) ts h = (h.0, append-Evolves rs ss ts h.1)

pub Evolves-trans : (rs ss ts : List ScanRun) → Evolves rs ss → Evolves ss ts → Evolves rs ts
Evolves-trans [] ss ts h k = tt
Evolves-trans (r ∷ rs) [] ts h k = elim h [ ]
Evolves-trans (r ∷ rs) (s ∷ ss) [] h k = elim k [ ]
Evolves-trans (r ∷ rs) (s ∷ ss) (t ∷ ts) h k =
    (Follows-trans h.0 k.0, Evolves-trans rs ss ts h.1 k.1)

write-Absent-Evolves :
    (job : ScanRun) (rs : List ScanRun) → Absent job.id (ids rs) → Evolves rs (map (write job) rs)
write-Absent-Evolves job [] h = tt
write-Absent-Evolves job (r ∷ rs) h =
    (rw (==_no r.id job.id h.0) (Follows-refl r), write-Absent-Evolves job rs h.1)
  where
    ==_no : (a b : ℕ) → a ≢ b → (a == b) ≡ false
    ==_no a b h = ground arith

-- Writing back the row that was found under its id.
pub write-Evolves :
    (old job : ScanRun) (rs : List ScanRun)
    → Unique (ids rs)
    → find_by (λ r. r.id == job.id) rs ≡ some old
    → Follows old job
    → Evolves rs (map (write job) rs)
write-Evolves old job [] u h f = tt
write-Evolves old job (r ∷ rs) u h f = elim (Bool-cases (r.id == job.id)) [
  | inl e ↦
      let here : old ≡ r = ground (arith, e) in
      (
        rw e (subst (λ (x : ScanRun). Follows x job) here f),
        write-Absent-Evolves job rs
            (subst (λ (a : ℕ). Absent a (ids rs)) (==→eq r.id job.id e) u.0),
      )
  | inr e ↦ (rw e (Follows-refl r), write-Evolves old job rs u.1 (ground (arith, e)) f)
]

-- What a row that is terminal becomes: itself.
pub Evolves-In :
    (r : ScanRun) (rs ss : List ScanRun)
    → Evolves rs ss
    → In r rs
    → (s : ScanRun) × In s ss × Follows r s
Evolves-In r [] ss h m = elim m [ ]
Evolves-In r (x ∷ rs) [] h m = elim h [ ]
Evolves-In r (x ∷ rs) (s ∷ ss) h (inl e) =
    (s, inl refl, subst (λ (y : ScanRun). Follows y s) (sym e) h.0)
Evolves-In r (x ∷ rs) (s ∷ ss) h (inr m) =
    let (t, mt, f) = Evolves-In r rs ss h.1 m in (t, inr mt, f)
