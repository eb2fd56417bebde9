-- ===== src/Tracking/Missing.antt =====
-- What `mark_absent` means for a tracked listing, and what it never does.
use searchcar_desktop.Base.{
  ℕ, ◌+◌, String, ◌≡◌, refl, ap, ◌∙◌, inl, inr, Bool, true, false, ◌&&◌, ◌||◌, not, some, List, [],
  ◌∷◌, arith, find_by, In, ==_refl, if◌then◌else◌,
}
use searchcar_desktop.Tracking.Tables.{
  Car, ProjectCar, Catalog, SearchStatus, is_link, find_link, find_car, is_missing,
}
use searchcar_desktop.Tracking.Changes.{apply_missing, one_of}
use searchcar_desktop.Tracking.Absence.{
  missing_link, counted_link, stored_status, link_rows, mark_absent,
}
use searchcar_desktop.Tracking.Counting.{next_link, UniqueLinks, OtherLinks, rows-own}

find_unique :
    (l : ProjectCar) (ls : List ProjectCar)
    → UniqueLinks ls
    → In l ls
    → find_by (is_link l.project_id l.car_id) ls ≡ some l
find_unique l [] u m = elim m [ ]
find_unique l (x ∷ ls) u (inl e) = rw (← e) (ground (arith, ==_refl l.project_id, ==_refl l.car_id))
find_unique l (x ∷ ls) u (inr m) = ground (arith, differs x ls m u.0, find_unique l ls u.1 m)
  where
    differs :
        (x : ProjectCar) (ls : List ProjectCar)
        → In l ls
        → OtherLinks x.project_id x.car_id ls
        → is_link l.project_id l.car_id x ≡ false
    differs x [] m h = elim m [ ]
    differs x (y ∷ ls) (inl e) h = ground (arith, rw (← e) at h.0)
    differs x (y ∷ ls) (inr m) h = differs x ls m h.1

-- a listing that is confirmed as sold or not in a complete search is missing once more; one in the
-- search is found; a failed search tells nothing
abbrev pub counted : Bool → Bool → Bool → ProjectCar → ProjectCar
counted sold success found link =
    if sold || (success && not found)
    then record link {
      search_status = SearchStatus.not_found_in_search;
      consecutive_missing_scans = link.consecutive_missing_scans + 1;
    }
    else if success
    then record link { search_status = SearchStatus.found; consecutive_missing_scans = 0 }
    else record link { search_status = stored_status link.search_status }

next_link-counted :
    (success : Bool) (found sold : List String) (car : Car) (link : ProjectCar)
    → next_link success found sold car link
      ≡ counted
          (one_of sold car.canonical_encar_id)
          success
          (one_of found car.canonical_encar_id)
          link
unfolding apply_missing
next_link-counted success found sold car link =
    branches (one_of sold car.canonical_encar_id) success (one_of found car.canonical_encar_id)
  where
    stored :
        (missing : Bool)
        → stored_status (if missing then SearchStatus.relisted else SearchStatus.found)
          ≡ SearchStatus.found
    stored true = refl
    stored false = refl

    branches :
        (s ok f : Bool)
        → (if s
            then missing_link link
            else let (count, status) =
                apply_missing ok f link.consecutive_missing_scans link.search_status in
              counted_link count status link)
          ≡ counted s ok f link
    branches true ok f = refl
    branches false true true =
        ap (λ t. record link { search_status = t; consecutive_missing_scans = 0 })
          (stored (is_missing link.search_status))
    branches false true false = refl
    branches false false f = refl

-- After the pass over a project, each of its tracked links whose car is not excluded is counted as
-- the search says: missing once more if its listing is confirmed as sold or a complete search did
-- not find it, found with no miss if the search found it, and as it was after a failed search.
pub mark_absent-counted :
    (project : ℕ) (found : List String) (success : Bool) (sold : List String) (db : Catalog)
    (link : ProjectCar) (car : Car)
    → UniqueLinks db.project_cars
    → In link db.project_cars
    → link.project_id ≡ project
    → link.tracking_enabled ≡ true
    → find_car link.car_id db ≡ some car
    → car.excluded ≡ false
    → find_link project link.car_id (mark_absent project found success sold db).1
      ≡ some (
          counted
            (one_of sold car.canonical_encar_id)
            success
            (one_of found car.canonical_encar_id)
            link)
unfolding mark_absent link_rows
mark_absent-counted project found success sold db link car u m p t f x =
    rows-own success found sold project link.car_id db link car db.project_cars db m u
      (rw (p, ==_refl project) (==_refl link.car_id)) (rw (p, ==_refl project, t, f) (simp x refl))
      (rw (← p) (find_unique link db.project_cars u m))
    ∙ ap some (next_link-counted success found sold car link)
